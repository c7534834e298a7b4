-- ===== src/Examples/Decode.antt =====
-- The theorems on sealed messages at concrete keys.
use cryptis_dchat_project.Prelude.{
  ℕ, ◌+◌, ◌<◌, ◌≡◌, refl, sym, ap, ap₂, ◌∙◌, ◌==◌, ==_iff, if◌then◌else◌, Bool, true, false, Option,
  none, some, [], ◌∷◌, ◌++◌, length, take, drop, replicate, arith, length-append,
  take-length_append, drop-length_append, ◌≤◌, ◌>>=◌,
}
use cryptis_dchat_project.Crypto.Signing.{Bytes, signing_bytes, HasNoZero}
use cryptis_dchat_project.Crypto.Ecies.{Subtle}
use cryptis_dchat_project.Crypto.Merkle.{text_eq}
use cryptis_dchat_project.Crypto.Merkle.Hex.{text_eq-same, text_eq_refl}
use cryptis_dchat_project.Examples.TreeKem.{total}
use cryptis_dchat_project.Decode.{
  Content, text, file, Boxes, Raw, found, shown, decode_message, seal_packet, open_with,
  open_content, show,
}
use cryptis_dchat_project.Decode.Signed.{decode_message-seal_packet, decode_message-shown}
use cryptis_dchat_project.Decode.Reactions.{Row}

abbrev head_or : Bytes → ℕ
head_or [] = 0
head_or (x ∷ s) = x

abbrev untagged : ℕ → Bytes → Option Bytes
untagged key ct = if head_or ct == key then some (drop 16 ct) else none

untagged_same : (key : ℕ) (plain : Bytes) → untagged key (replicate 16 key ++ plain) ≡ some plain
untagged_same key plain = ap (λ b. if b then some plain else none) ((==_iff key key).1 refl)

tagged-le : (key : ℕ) (plain : Bytes) → 16 ≤ length (replicate 16 key ++ plain)
tagged-le key plain = omega (arith, length-append (replicate 16 key) plain)

-- Keys count by their sums.
abbrev sums : Subtle
sums = record {
  public_of = λ k. total k ∷ replicate 64 0;
  derive_bits = λ public private. (head_or public + total private) ∷ [];
  derive_key = λ shared salt. shared;
  encrypt = λ key iv plain. replicate 16 (total key) ++ plain;
  decrypt = λ key iv ct. untagged (total key) ct;
  length-public_of = λ k. refl;
  derive_bits_same = λ k j. ap (λ (n : ℕ). n ∷ []) (omega arith);
  encrypt-le = λ key iv plain. tagged-le (total key) plain;
  decrypt-encrypt = λ key iv plain. untagged_same (total key) plain;
}

abbrev with_parts : ℕ → Bytes → Bytes → Bytes → Content
with_parts size name mime key = file (record { name = name; size = size; mime = mime; key = key })

abbrev with_rest : ℕ → ℕ → Bytes → Bytes → Content
with_rest size mimes name rest = with_parts size name (take mimes rest) (drop mimes rest)

abbrev to_json : Content → Bytes
to_json (text t) = 0 ∷ t
to_json (file f) = 1 ∷ f.size ∷ length f.name ∷ length f.mime ∷ (f.name ++ (f.mime ++ f.key))

abbrev file_from : Bytes → Option Content
file_from (size ∷ names ∷ mimes ∷ rest) =
    some (with_rest size mimes (take names rest) (drop names rest))
file_from _ = none

abbrev of_json : Bytes → Option Content
of_json [] = none
of_json (tag ∷ rest) = if tag == 0 then some (text rest) else file_from rest

of_json-to_json : (c : Content) → of_json (to_json c) ≡ some c
of_json-to_json (text t) = refl
of_json-to_json (file f) = ap some (
    ap₂ (with_rest f.size (length f.mime)) (take-length_append f.name (f.mime ++ f.key))
      (drop-length_append f.name (f.mime ++ f.key))
    ∙ ap₂ (with_parts f.size f.name) (take-length_append f.mime f.key)
        (drop-length_append f.mime f.key))

abbrev thread : Bytes
thread = 1 ∷ []

abbrev client : Bytes
client = 2 ∷ []

abbrev nonce : Bytes
nonce = replicate 24 4

abbrev sealed : Bytes
sealed = 5 ∷ 0 ∷ 104 ∷ []

abbrev covered : Bytes
covered =
    99
    ∷ 114
    ∷ 121
    ∷ 112
    ∷ 116
    ∷ 105
    ∷ 115
    ∷ 45
    ∷ 109
    ∷ 115
    ∷ 103
    ∷ 45
    ∷ 118
    ∷ 49
    ∷ 0
    ∷ (thread ++ 0 ∷ (client ++ 0 ∷ (0 ∷ 0 ∷ 0 ∷ 7 ∷ (nonce ++ sealed))))

covered_is : signing_bytes thread client 7 nonce sealed ≡ covered
unfolding signing_bytes
covered_is = refl

-- The holder of the public key 7 signed one packet; any other private key signs by itself.
abbrev verify_by : Bytes → Bytes → Bytes → Bool
verify_by [] signature bytes = true
verify_by (tag ∷ public) signature bytes =
    if tag == 7 then text_eq bytes covered else text_eq signature (public ++ bytes)

verify_by-sign : (private bytes : Bytes) → verify_by (0 ∷ private) (private ++ bytes) bytes ≡ true
verify_by-sign private bytes = text_eq_refl (private ++ bytes)

abbrev boxes : Boxes
boxes = record {
  sign = λ private bytes. private ++ bytes;
  verify = verify_by;
  box = λ key nonce plain. key ++ plain;
  open_box = λ key nonce ct. some (drop (length key) ct);
  sha256 = λ bytes. bytes;
  to_json = to_json;
  of_json = of_json;
  is_utf8 = λ bytes. true;
  public_of = λ k. 0 ∷ k;
  verify-sign = verify_by-sign;
  open_box-box = λ key nonce plain. ap some (drop-length_append key plain);
  of_json-to_json = of_json-to_json;
}

decode_message-seal_packet_example :
    decode_message boxes thread
      (seal_packet boxes (8 ∷ []) (3 ∷ []) 1 thread client 7 (5 ∷ []) nonce (text (104 ∷ [])))
      (some (0 ∷ 8 ∷ []))
      (found (5 ∷ []))
    ≡ shown (text (104 ∷ []))
decode_message-seal_packet_example =
    decode_message-seal_packet boxes (8 ∷ []) (3 ∷ []) thread client (5 ∷ []) nonce 1 7
      (text (104 ∷ []))

abbrev raw : Raw
raw = record {
  client_msg_id = client;
  sender_id = 3 ∷ [];
  sender_key_version = 1;
  key_epoch = 7;
  nonce = nonce;
  ciphertext = sealed;
  signature = [];
}

raw_shown :
    decode_message boxes thread raw (some (7 ∷ [])) (found (5 ∷ [])) ≡ shown (text (104 ∷ []))
unfolding decode_message signing_bytes open_with open_content show
raw_shown = refl

abbrev Sent : (thread client : Bytes) → ℕ → (nonce ct : Bytes) → Type 0
Sent t m e n x = (t ≡ thread) × (m ≡ client) × (e ≡ 7) × (n ≡ nonce) × (x ≡ sealed)

only_signed :
    (signature bytes : Bytes)
    → verify_by (7 ∷ []) signature bytes ≡ true
    → (t : Bytes) × (m : Bytes) × (e : ℕ) × (n : Bytes) × (x : Bytes) × Sent t m e n x
      × (HasNoZero t × HasNoZero m × (e < 4294967296) × (length n ≡ 24))
      × (signing_bytes t m e n x ≡ bytes)
only_signed signature bytes ok = (
  thread,
  client,
  7,
  nonce,
  sealed,
  (refl, refl, refl, refl, refl),
  (((λ e. omega arith), tt), ((λ e. omega arith), tt), omega arith, refl),
  covered_is ∙ sym (text_eq-same bytes covered ok),
)

decode_message-shown_example :
    Sent thread client 7 nonce sealed
    × ((key : Bytes) × (found (5 ∷ []) ≡ found key)
        × ((some (drop (length key) sealed) >>= of_json) ≡ some (text (104 ∷ []))))
decode_message-shown_example =
    decode_message-shown boxes (7 ∷ []) Sent only_signed thread raw (found (5 ∷ []))
      (text (104 ∷ [])) ((λ e. omega arith), tt) ((λ e. omega arith), tt) (omega arith) refl
      raw_shown

abbrev damaged : Row
damaged = record {
  key = found (5 ∷ []);
  nonce = nonce;
  ciphertext = [];
  emoji_hash = [];
  count = 1;
  mine = false;
}
