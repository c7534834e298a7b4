-- ===== src/Crypto/Ecies.antt =====
-- `eciesSeal` and `eciesOpen`, `aesGcmSeal` and `aesGcmOpen` of backend/static/js/lib/crypto.js, with their
-- texts of base64 as the bytes that they stand for.
use cryptis_dchat_project.Prelude.{
  ℕ, suc, ◌≤◌, ◌≡◌, sym, ap, ap₂, ◌∙◌, ltb, ◌==◌, if◌then◌else◌, false, not, ◌||◌, Option, none,
  some, [], ◌∷◌, ◌++◌, length, take, drop, length-append, take-length_append, drop-length_append,
  arith,
}
use cryptis_dchat_project.Crypto.Signing.{Bytes}

-- Web Crypto: `exportKey('raw')` of a public key on P-256 has 65 bytes, the agreed bits are the same from both
-- sides, AES-GCM adds 16 bytes and opens what it sealed with the same key and initialisation vector.
pub record Subtle : Type 0 where
  pub public_of : Bytes → Bytes
  pub derive_bits : (public private : Bytes) → Bytes
  pub derive_key : (shared salt : Bytes) → Bytes
  pub encrypt : (key iv plain : Bytes) → Bytes
  pub decrypt : (key iv ct : Bytes) → Option Bytes
  pub length-public_of : (k : Bytes) → length (public_of k) ≡ 65
  pub derive_bits_same : (k j : Bytes) → derive_bits (public_of k) j ≡ derive_bits (public_of j) k
  pub encrypt-le : (key iv plain : Bytes) → 16 ≤ length (encrypt key iv plain)
  pub decrypt-encrypt : (key iv plain : Bytes) → decrypt key iv (encrypt key iv plain) ≡ some plain

module _ (w : Subtle) where
  open w use {
    public_of, derive_bits, derive_key, encrypt, decrypt, length-public_of, derive_bits_same,
    encrypt-le, decrypt-encrypt,
  }

  -- `eph` is the private key that was generated, `iv` what was drawn.
  unfoldable pub ecies_seal : (recipient eph iv plain : Bytes) → Bytes
  ecies_seal recipient eph iv plain =
      let key = derive_key (derive_bits recipient eph) (public_of eph) in
      1 ∷ (public_of eph ++ (iv ++ encrypt key iv plain))

  unfoldable pub open_parts : (private eph iv ct : Bytes) → Option Bytes
  open_parts private eph iv ct = decrypt (derive_key (derive_bits eph private) eph) iv ct

  -- `blob.subarray(1, 66)` and so on, after the version.
  unfoldable pub open_body : Bytes → Bytes → Option Bytes
  unfolding open_parts
  open_body private body =
      open_parts private (take 65 body) (take 12 (drop 65 body)) (drop 12 (drop 65 body))

  unfoldable pub ecies_open : Bytes → Bytes → Option Bytes
  unfolding open_body
  ecies_open private [] = none
  ecies_open private (version ∷ body) =
      if ltb (suc (length body)) 94 || not (version == 1) then none else open_body private body

  unfoldable pub aes_gcm_seal : (key iv plain : Bytes) → Bytes
  aes_gcm_seal key iv plain = iv ++ encrypt key iv plain

  unfoldable pub aes_gcm_open : Bytes → Bytes → Option Bytes
  aes_gcm_open key blob = decrypt key (take 12 blob) (drop 12 blob)

  take-at : (n : ℕ) (a b : Bytes) → length a ≡ n → take n (a ++ b) ≡ a
  take-at n a b len = ap (λ k. take k (a ++ b)) (sym len) ∙ take-length_append a b

  drop-at : (n : ℕ) (a b : Bytes) → length a ≡ n → drop n (a ++ b) ≡ b
  drop-at n a b len = ap (λ k. drop k (a ++ b)) (sym len) ∙ drop-length_append a b

  pub aes_gcm_open-aes_gcm_seal :
      (key iv plain : Bytes)
      → length iv ≡ 12
      → aes_gcm_open key (aes_gcm_seal key iv plain) ≡ some plain
  unfolding aes_gcm_open aes_gcm_seal
  aes_gcm_open-aes_gcm_seal key iv plain len =
      ap₂ (decrypt key) (take-at 12 iv (encrypt key iv plain) len)
        (drop-at 12 iv (encrypt key iv plain) len)
      ∙ decrypt-encrypt key iv plain

  open_body-parts :
      (private eph iv ct : Bytes)
      → length eph ≡ 65
      → length iv ≡ 12
      → open_body private (eph ++ (iv ++ ct)) ≡ open_parts private eph iv ct
  unfolding open_body
  open_body-parts private eph iv ct len len' =
      ap
        (λ x.
          open_parts private x (take 12 (drop 65 (eph ++ (iv ++ ct))))
            (drop 12 (drop 65 (eph ++ (iv ++ ct)))))
        (take-at 65 eph (iv ++ ct) len)
      ∙ ap (λ x. open_parts private eph (take 12 x) (drop 12 x)) (drop-at 65 eph (iv ++ ct) len)
      ∙ ap₂ (open_parts private eph) (take-at 12 iv ct len') (drop-at 12 iv ct len')

  not_short : (n : ℕ) → 93 ≤ n → (ltb (suc n) 94 || not (1 == 1)) ≡ false
  not_short n h = ground arith

  length-body :
      (eph iv ct : Bytes)
      → length eph ≡ 65
      → length iv ≡ 12
      → 16 ≤ length ct
      → 93 ≤ length (eph ++ (iv ++ ct))
  length-body eph iv ct a b c = omega (arith, length-append eph (iv ++ ct), length-append iv ct)

  open_parts-encrypt :
      (private eph iv plain : Bytes)
      → open_parts private
          (public_of eph)
          iv
          (encrypt (derive_key (derive_bits (public_of private) eph) (public_of eph)) iv plain)
        ≡ some plain
  unfolding open_parts
  open_parts-encrypt private eph iv plain =
      ap
        (λ bits.
          decrypt (derive_key bits (public_of eph)) iv
            (encrypt (derive_key (derive_bits (public_of private) eph) (public_of eph)) iv plain))
        (derive_bits_same eph private)
      ∙ decrypt-encrypt _ iv plain

  -- What `ecies_seal` sealed for a public key is opened by its private key, whatever key pair is
  -- generated, if the initialisation vector has 12 bytes.
  pub ecies_open-ecies_seal :
      (private eph iv plain : Bytes)
      → length iv ≡ 12
      → ecies_open private (ecies_seal (public_of private) eph iv plain) ≡ some plain
  unfolding ecies_open ecies_seal
  ecies_open-ecies_seal private eph iv plain len =
      let key = derive_key (derive_bits (public_of private) eph) (public_of eph) in
      let ct = encrypt key iv plain in
      let body = public_of eph ++ (iv ++ ct) in
      ap (λ b. if b then none else open_body private body)
        (not_short (length body)
          (length-body (public_of eph) iv ct (length-public_of eph) len (encrypt-le key iv plain)))
      ∙ open_body-parts private (public_of eph) iv ct (length-public_of eph) len
      ∙ open_parts-encrypt private eph iv plain
