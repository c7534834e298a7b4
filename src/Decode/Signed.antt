-- ===== src/Decode/Signed.antt =====
-- Whose messages are shown: `decodeMessage` and `sealPacket` of backend/static/js/app/data.js.
use mathlib.Core.Path.{subst}
use cryptis_dchat_project.Prelude.{
  ℕ, ◌<◌, ◌≡◌, refl, ap, ◌∙◌, if◌then◌else◌, Bool, true, false, Option, none, some, length, ◌>>=◌,
  arith,
}
use cryptis_dchat_project.Crypto.Signing.{Bytes, signing_bytes, signing_bytes-same, HasNoZero}
use cryptis_dchat_project.Decode.{
  Content, Boxes, Raw, KeyReply, threw, missing, found, Shown, shown, bad_signature, show,
  open_content, open_with, decode_message, seal_packet,
}

checked :
    (b : Bool) (x : Shown) (c : Content)
    → (if b then x else bad_signature) ≡ shown c
    → (b ≡ true) × (x ≡ shown c)
checked true x c h = (refl, h)
checked false x c h = absurd (cc h)

show-shown : (o : Option Content) (c : Content) → show o ≡ shown c → o ≡ some c
unfolding show
show-shown none c h = absurd (cc h)
show-shown (some d) c h = ground (arith, h)

module _ (w : Boxes) where
  open w use {
    sign, verify, box, open_box, to_json, of_json, public_of, verify-sign, open_box-box,
    of_json-to_json,
  }

  open_content_sealed :
      (key nonce : Bytes) (c : Content)
      → open_content w key nonce (box key nonce (to_json c)) ≡ shown c
  unfolding open_content show
  open_content_sealed key nonce c =
      ap (λ o. show (o >>= of_json)) (open_box-box key nonce (to_json c))
      ∙ ap show (of_json-to_json c)

  -- What `seal_packet` made of a content is shown as that content by `decode_message`, with the public
  -- key of the signer and the key that sealed it.
  pub decode_message-seal_packet :
      (private sender thread client key nonce : Bytes) (version epoch : ℕ) (c : Content)
      → decode_message w thread
          (seal_packet w private sender version thread client epoch key nonce c)
          (some (public_of private))
          (found key)
        ≡ shown c
  unfolding decode_message seal_packet open_with
  decode_message-seal_packet private sender thread client key nonce version epoch c =
      ap (λ b. if b then open_content w key nonce (box key nonce (to_json c)) else bad_signature)
        (verify-sign private (signing_bytes thread client epoch nonce (box key nonce (to_json c))))
      ∙ open_content_sealed key nonce c

  open_with-shown :
      (r : Raw) (k : KeyReply) (c : Content)
      → open_with w r k ≡ shown c
      → (key : Bytes) × (k ≡ found key) × ((open_box key r.nonce r.ciphertext >>= of_json) ≡ some c)
  unfolding open_with open_content
  open_with-shown r threw c h = absurd (cc h)
  open_with-shown r missing c h = absurd (cc h)
  open_with-shown r (found key) c h = (key, refl, show-shown _ c h)

  -- The packets that the holder of the signing key signed: the ids of chat and message, the epoch, the nonce and the
  -- sealed text.
  module _ (public : Bytes) (Sent : (thread client : Bytes) → ℕ → (nonce ct : Bytes) → Type 0)
      (only_signed : (signature data_ : Bytes)
        → verify public signature data_ ≡ true
        → (thread : Bytes) × (client : Bytes) × (epoch : ℕ) × (nonce : Bytes) × (ct : Bytes) × Sent
            thread client epoch nonce ct
          × (HasNoZero thread × HasNoZero client × (epoch < 4294967296) × (length nonce ≡ 24))
          × (signing_bytes thread client epoch nonce ct ≡ data_)) where
    -- A message whose content is shown is one that the holder of the sender's key signed: the same chat,
    -- id, epoch, nonce and sealed text; and the content is what the chat's key opens. Whoever verifies
    -- under the key was signed as one of these packets, ids have no zero byte, nonces have 24 bytes, and
    -- epochs have 32 bits.
    pub decode_message-shown :
        (thread : Bytes) (r : Raw) (k : KeyReply) (c : Content)
        → HasNoZero thread
        → HasNoZero r.client_msg_id
        → r.key_epoch < 4294967296
        → length r.nonce ≡ 24
        → decode_message w thread r (some public) k ≡ shown c
        → Sent thread r.client_msg_id r.key_epoch r.nonce r.ciphertext
          × ((key : Bytes) × (k ≡ found key)
              × ((open_box key r.nonce r.ciphertext >>= of_json) ≡ some c))
    unfolding decode_message
    decode_message-shown thread r k c zt zc small len h =
        let (signed, opened) = checked _ _ c h in
        let (t, m, e, n, x, sent, (zt', zc', small', len'), same) =
          only_signed r.signature _ signed in
        let (ts, ms, es, ns, xs) =
          signing_bytes-same t thread m r.client_msg_id e r.key_epoch n r.nonce x r.ciphertext zt'
            zt zc' zc small' small len' len same in
        (
          subst (λ y. Sent thread r.client_msg_id r.key_epoch r.nonce y) xs
              (subst (λ y. Sent thread r.client_msg_id r.key_epoch y x) ns
                (subst (λ y. Sent thread r.client_msg_id y n x) es
                  (subst (λ y. Sent thread y e n x) ms (subst (λ y. Sent y m e n x) ts sent)))),
          open_with-shown r k c opened,
        )
