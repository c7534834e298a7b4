-- ===== src/Crypto/Merkle.antt =====
-- Hexadecimal texts and the proofs of the block chain: `hex`, `unhex` and `merkleVerify` of
-- backend/static/js/lib/crypto.js. A text is the list of its character codes.
pub mod Hex
pub mod Events
pub mod Binding
use cryptis_dchat_project.Prelude.{
  ℕ, ◌+◌, ◌-◌, ◌*◌, ◌/◌, ◌%◌, ◌≡◌, ltb, leb, ◌==◌, if◌then◌else◌, Bool, true, false, ◌&&◌, Option,
  none, some, List, [], ◌∷◌, ◌++◌,
}

abbrev pub Bytes : Type 0
Bytes = List ℕ

-- The digits `0` to `9` and `a` to `f`.
unfoldable pub to_digit : ℕ → ℕ
to_digit n = if ltb n 10 then 48 + n else 87 + n

-- `b.toString(16).padStart(2, '0')` for each byte.
unfoldable pub hex : Bytes → List ℕ
unfolding to_digit
hex [] = []
hex (b ∷ bs) = to_digit (b / 16) ∷ to_digit (b % 16) ∷ hex bs

-- The value of a digit for `parseInt(x, 16)`, which reads capitals too.
unfoldable pub of_digit : ℕ → Option ℕ
of_digit c =
    if leb 48 c && leb c 57
    then some (c - 48)
    else if leb 97 c && leb c 102
    then some (c - 87)
    else if leb 65 c && leb c 70
    then some (c - 55)
    else none

-- `parseInt` of two characters: it stops at the first that is no digit, and a typed array has 0 for NaN.
unfoldable pub parse_pair : Option ℕ → Option ℕ → ℕ
parse_pair none low = 0
parse_pair (some high) none = high
parse_pair (some high) (some low) = high * 16 + low

-- `h.match(/.{2}/g)` drops a last character without a partner.
unfoldable pub unhex : List ℕ → Bytes
unfolding of_digit parse_pair
unhex [] = []
unhex (c ∷ []) = []
unhex (c ∷ d ∷ h) = parse_pair (of_digit c) (of_digit d) ∷ unhex h

pub record ProofStep : Type 0 where
  pub left : Bool
  pub hash : List ℕ

abbrev pub text_eq : List ℕ → List ℕ → Bool
text_eq [] [] = true
text_eq (a ∷ xs) (b ∷ ys) = a == b && text_eq xs ys
text_eq _ _ = false

module _ (sha256 : Bytes → Bytes) where
  -- One step of the proof; `left` is `step.pos === 'L'`.
  abbrev pub climb_step : ProofStep → Bytes → Bytes
  climb_step s acc = sha256 (if s.left then 1 ∷ unhex s.hash ++ acc else 1 ∷ acc ++ unhex s.hash)

  unfoldable pub climb : Bytes → List ProofStep → Bytes
  climb acc [] = acc
  climb acc (s ∷ proof) = climb (climb_step s acc) proof

  unfoldable pub merkle_verify : List ℕ → List ProofStep → List ℕ → Bool
  unfolding climb
  merkle_verify event_hash proof root =
      text_eq (hex (climb (sha256 (0 ∷ unhex event_hash)) proof)) root
