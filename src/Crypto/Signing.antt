-- ===== src/Crypto/Signing.antt =====
-- What a message's signature covers: `signingBytes` of backend/static/js/lib/crypto.js. Texts are their
-- bytes of UTF-8.
use cryptis_dchat_project.Prelude.{
  ℕ, ◌/◌, ◌%◌, ◌<◌, ◌≡◌, ◌≢◌, refl, sym, ap, ap₂, ◌∙◌, List, [], ◌∷◌, ◌++◌, length, All, arith,
  take, drop, take-length_append, drop-length_append,
}

abbrev pub Bytes : Type 0
Bytes = List ℕ

-- `cryptis-msg-v1` and a zero.
abbrev pub signing_label : Bytes
signing_label =
    99 ∷ 114 ∷ 121 ∷ 112 ∷ 116 ∷ 105 ∷ 115 ∷ 45 ∷ 109 ∷ 115 ∷ 103 ∷ 45 ∷ 118 ∷ 49 ∷ 0 ∷ []

-- `setUint32(0, n, false)`
unfoldable pub set_uint32 : ℕ → Bytes
set_uint32 n = (n / 16777216) % 256 ∷ (n / 65536) % 256 ∷ (n / 256) % 256 ∷ n % 256 ∷ []

unfoldable pub signing_bytes :
    (thread_id client_msg_id : Bytes) → ℕ → (nonce ciphertext : Bytes) → Bytes
unfolding set_uint32
signing_bytes thread_id client_msg_id epoch nonce ciphertext =
    signing_label
    ++ (thread_id ++ 0 ∷ (client_msg_id ++ 0 ∷ (set_uint32 epoch ++ (nonce ++ ciphertext))))

abbrev pub HasNoZero : Bytes → Type 0
HasNoZero = All (λ b. b ≢ 0)

-- A text without zeros ends at the first zero.
zero-ends :
    (s t a b : Bytes) → HasNoZero s → HasNoZero t → s ++ 0 ∷ a ≡ t ++ 0 ∷ b → (s ≡ t) × (a ≡ b)
zero-ends [] [] a b hs ht e = (refl, ap (drop 1) e)
zero-ends [] (y ∷ t) a b hs ht e = absurd (ht.0 (ground (arith, e)))
zero-ends (x ∷ s) [] a b hs ht e = absurd (hs.0 (ground (arith, e)))
zero-ends (x ∷ s) (y ∷ t) a b hs ht e =
    let (same, rest) = zero-ends s t a b hs.1 ht.1 (ap (drop 1) e) in
    let head : x ≡ y = ground (arith, e) in (ap₂ ◌∷◌ head same, rest)

-- The parts of two texts that are joined, where the first ones are of one length.
pub split-same : (a b c d : Bytes) → length a ≡ length b → a ++ c ≡ b ++ d → (a ≡ b) × (c ≡ d)
split-same a b c d len e = (
  sym (take-length_append a c)
      ∙ ap (take (length a)) e
      ∙ ap (λ n. take n (b ++ d)) len
      ∙ take-length_append b d,
  sym (drop-length_append a c)
      ∙ ap (drop (length a)) e
      ∙ ap (λ n. drop n (b ++ d)) len
      ∙ drop-length_append b d,
)

set_uint32-same : (m n : ℕ) → m < 4294967296 → n < 4294967296 → set_uint32 m ≡ set_uint32 n → m ≡ n
unfolding set_uint32
set_uint32-same m n hm hn e =
    let a : (m / 16777216) % 256 ≡ (n / 16777216) % 256 = ground (arith, e) in
    let b : (m / 65536) % 256 ≡ (n / 65536) % 256 = ground (arith, e) in
    let c : (m / 256) % 256 ≡ (n / 256) % 256 = ground (arith, e) in
    let d : m % 256 ≡ n % 256 = ground (arith, e) in omega arith

-- The bytes that are signed determine the chat, the id of the message, the epoch, the nonce and the
-- sealed text, if ids have no zero byte, epochs are below 2 ^ 32 and nonces have 24 bytes.
pub signing_bytes-same :
    (thread thread' client client' : Bytes) (epoch epoch' : ℕ) (nonce nonce' ct ct' : Bytes)
    → HasNoZero thread
    → HasNoZero thread'
    → HasNoZero client
    → HasNoZero client'
    → epoch < 4294967296
    → epoch' < 4294967296
    → length nonce ≡ 24
    → length nonce' ≡ 24
    → signing_bytes thread client epoch nonce ct ≡ signing_bytes thread' client' epoch' nonce' ct'
    → (thread ≡ thread') × (client ≡ client') × (epoch ≡ epoch') × (nonce ≡ nonce') × (ct ≡ ct')
unfolding signing_bytes
signing_bytes-same thread thread' client client' epoch epoch' nonce nonce' ct ct' h h' k k' small
      small' len len' e =
    let (threads, more) = zero-ends thread thread' _ _ h h' (ap (drop 15) e) in
    let (clients, rest) = zero-ends client client' _ _ k k' more in
    let (words, tail) = split-same (set_uint32 epoch) (set_uint32 epoch') _ _ refl rest in
    let (nonces, texts) = split-same nonce nonce' ct ct' (len ∙ sym len') tail in
    (threads, clients, set_uint32-same epoch epoch' small small' words, nonces, texts)
