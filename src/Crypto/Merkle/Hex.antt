-- ===== src/Crypto/Merkle/Hex.antt =====
-- `hex` and `unhex` of backend/static/js/lib/crypto.js.
use cryptis_dchat_project.Prelude.{
  ℕ, ◌+◌, ◌*◌, ◌/◌, ◌%◌, ◌<◌, ◌≡◌, refl, sym, ap, ap₂, ◌∙◌, true, some, List, [], ◌∷◌, arith, All,
}
use cryptis_dchat_project.Crypto.Merkle.{Bytes, to_digit, hex, of_digit, parse_pair, unhex, text_eq}

abbrev pub AreBytes : Bytes → Type 0
AreBytes bs = All (λ b. b < 256) bs

of_digit-to_digit : (n : ℕ) → n < 16 → of_digit (to_digit n) ≡ some n
unfolding of_digit to_digit
of_digit-to_digit n h = ground arith

parse_pair-some : (a b : ℕ) → parse_pair (some a) (some b) ≡ a * 16 + b
unfolding parse_pair
parse_pair-some a b = refl

-- Bytes in hexadecimal are read back.
pub unhex-hex : (bs : Bytes) → AreBytes bs → unhex (hex bs) ≡ bs
unfolding hex unhex
unhex-hex [] h = refl
unhex-hex (b ∷ bs) (h, hs) =
    rw
      (
        of_digit-to_digit (b / 16) (omega arith),
        of_digit-to_digit (b % 16) (omega arith),
        parse_pair-some (b / 16) (b % 16),
      )
      (ap₂ ◌∷◌ (omega arith) (unhex-hex bs hs))

pub hex-injective : (xs bs : Bytes) → AreBytes xs → AreBytes bs → hex xs ≡ hex bs → xs ≡ bs
hex-injective xs bs ha hb e = sym (unhex-hex xs ha) ∙ ap unhex e ∙ unhex-hex bs hb

pub text_eq-same : (xs bs : List ℕ) → text_eq xs bs ≡ true → xs ≡ bs
text_eq-same [] [] h = refl
text_eq-same [] (b ∷ bs) h = absurd (cc h)
text_eq-same (a ∷ xs) [] h = absurd (cc h)
text_eq-same (a ∷ xs) (b ∷ bs) h = ap₂ ◌∷◌ (ground arith) (text_eq-same xs bs (ground arith))

pub text_eq_refl : (xs : List ℕ) → text_eq xs xs ≡ true
text_eq_refl [] = refl
text_eq_refl (a ∷ xs) = ground (arith, text_eq_refl xs)
