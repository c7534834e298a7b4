-- ===== src/Crypto/Gf/Field.antt =====
-- The laws of `gfMul` and `gfInv` of backend/static/js/lib/crypto.js on bytes.
use cryptis_dchat_project.Prelude.{
  ℕ, zero, suc, ◌^◌, false, ltb→lt, ◌*◌, ◌/◌, ◌%◌, ◌+◌, ◌<◌, bit_xor, ◌==◌, ==_iff, ltb, ◌≡◌, refl,
  sym, ap, ap₂, ◌∙◌, true, ◌&&◌, arith, Option, none, some, Option-cases, Bool, inl, inr,
}
use native.Mathlib.Numerals.{add-one}
use cryptis_dchat_project.Prelude.Xor.{bit_xor_self}
use cryptis_dchat_project.Prelude.Range.{all_below, all_below_sound}
use cryptis_dchat_project.Crypto.Gf.{gf_mul, gf_inv}
use cryptis_dchat_project.Crypto.Gf.Linear.{bit_xor-byte, gf_mul-byte, gf_mul-left, gf_mul-right}

abbrev IsAdditive : (ℕ → ℕ) → Type 0
IsAdditive f = (x y : ℕ) → x < 256 → y < 256 → f (bit_xor x y) ≡ bit_xor (f x) (f y)

-- The exclusive or of the digits of a byte, each at its place.
abbrev digit : ℕ → ℕ → ℕ
digit b e = b / e % 2 * e

abbrev of_digits : ℕ → ℕ
of_digits b =
    bit_xor (bit_xor (bit_xor (digit b 1) (digit b 2)) (bit_xor (digit b 4) (digit b 8)))
      (bit_xor (bit_xor (digit b 16) (digit b 32)) (bit_xor (digit b 64) (digit b 128)))

digits_table : all_below 256 (λ b. of_digits b == b) ≡ true
unfolding all_below
digits_table = refl

of_digits_lem : (b : ℕ) → b < 256 → of_digits b ≡ b
of_digits_lem b h = (==_iff _ _).0 (all_below_sound 256 _ b digits_table h)

-- Equal at the eight powers of two.
abbrev EqOnBasis : (ℕ → ℕ) → (ℕ → ℕ) → Type 0
EqOnBasis f g = (i : ℕ) → i < 8 → f (2 ^ i) ≡ g (2 ^ i)

power_table : all_below 8 (λ i. ltb (2 ^ i) 256) ≡ true
unfolding all_below
power_table = refl

power-byte : (i : ℕ) → i < 8 → 2 ^ i < 256
power-byte i h = ltb→lt _ _ (all_below_sound 8 (λ i. ltb (2 ^ i) 256) i power_table h)

small_table : all_below 8 (λ i. ltb (2 ^ i) 129) ≡ true
unfolding all_below
small_table = refl

power-small : (i : ℕ) → i < 8 → 2 ^ i < 129
power-small i h = ltb→lt _ _ (all_below_sound 8 (λ i. ltb (2 ^ i) 129) i small_table h)

module _ (f g : ℕ → ℕ) (hf : IsAdditive f) (hg : IsAdditive g) where
  zero_eq : f 0 ≡ g 0
  zero_eq =
      hf 0 0 (omega arith) (omega arith)
      ∙ bit_xor_self (f 0)
      ∙ sym (bit_xor_self (g 0))
      ∙ sym (hg 0 0 (omega arith) (omega arith))

  digit_eq : (d e : ℕ) → d < 2 → f e ≡ g e → f (d * e) ≡ g (d * e)
  digit_eq zero e h p = let z : 0 * e ≡ 0 = omega arith in rw z zero_eq
  digit_eq (suc zero) e h p = let z : 1 * e ≡ e = omega arith in rw z p
  digit_eq (suc (suc d)) e h p = absurd (omega arith)

  xor_eq : (x y : ℕ) → x < 256 → y < 256 → f x ≡ g x → f y ≡ g y → f (bit_xor x y) ≡ g (bit_xor x y)
  xor_eq x y hx hy p q = hf x y hx hy ∙ ap₂ bit_xor p q ∙ sym (hg x y hx hy)

  -- Two digits, and so on by doubling.
  abbrev Agree : ℕ → Type 0
  Agree x = (x < 256) × (f x ≡ g x)

  Agree-xor : {x y : ℕ} → Agree x → Agree y → Agree (bit_xor x y)
  Agree-xor {x} {y} (hx, p) (hy, q) = (bit_xor-byte x y hx hy, xor_eq x y hx hy p q)

  Agree-digit : (b e : ℕ) → e < 129 → f e ≡ g e → Agree (digit b e)
  Agree-digit b e h p = (small (b / e % 2) (omega arith), digit_eq (b / e % 2) e (omega arith) p)
    where
      small : (d : ℕ) → d < 2 → d * e < 256
      small zero _ = omega arith
      small (suc zero) _ = omega arith
      small (suc (suc d)) k = absurd (omega arith)

  linear_ext : EqOnBasis f g → (b : ℕ) → b < 256 → f b ≡ g b
  linear_ext basis b h =
      let at = λ (i : ℕ) (hi : i < 8). Agree-digit b (2 ^ i) (power-small i hi) (basis i hi) in
      let all =
        Agree-xor
          (Agree-xor (Agree-xor (at 0 (omega arith)) (at 1 (omega arith)))
            (Agree-xor (at 2 (omega arith)) (at 3 (omega arith))))
          (Agree-xor (Agree-xor (at 4 (omega arith)) (at 5 (omega arith)))
            (Agree-xor (at 6 (omega arith)) (at 7 (omega arith)))) in
      rw (of_digits_lem b h) at all.1

left : (b : ℕ) → b < 256 → IsAdditive (λ a. gf_mul a b)
left b hb x y hx hy = gf_mul-left x y b hx hy hb

right : (a : ℕ) → IsAdditive (gf_mul a)
right a x y hx hy = gf_mul-right a x y hx hy

right_after : (a b : ℕ) → b < 256 → IsAdditive (λ c. gf_mul a (gf_mul b c))
right_after a b hb x y hx hy =
    ap (gf_mul a) (gf_mul-right b x y hx hy)
    ∙ gf_mul-right a (gf_mul b x) (gf_mul b y) (gf_mul-byte b x hb hx) (gf_mul-byte b y hb hy)

left_after : (c d : ℕ) → c < 256 → d < 256 → IsAdditive (λ a. gf_mul (gf_mul a c) d)
left_after c d hc hd x y hx hy =
    ap (λ t. gf_mul t d) (gf_mul-left x y c hx hy hc)
    ∙ gf_mul-left (gf_mul x c) (gf_mul y c) d (gf_mul-byte x c hx hc) (gf_mul-byte y c hy hc) hd

middle_inner : (a d : ℕ) → a < 256 → d < 256 → IsAdditive (λ b. gf_mul (gf_mul a b) d)
middle_inner a d ha hd x y hx hy =
    ap (λ t. gf_mul t d) (gf_mul-right a x y hx hy)
    ∙ gf_mul-left (gf_mul a x) (gf_mul a y) d (gf_mul-byte a x ha hx) (gf_mul-byte a y ha hy) hd

middle_outer : (a d : ℕ) → d < 256 → IsAdditive (λ b. gf_mul a (gf_mul b d))
middle_outer a d hd x y hx hy =
    ap (gf_mul a) (gf_mul-left x y d hx hy hd)
    ∙ gf_mul-right a (gf_mul x d) (gf_mul y d) (gf_mul-byte x d hx hd) (gf_mul-byte y d hy hd)

-- Products of powers of two, by evaluation.
comm_table :
    all_below 8 (λ i. all_below 8 (λ j. gf_mul (2 ^ i) (2 ^ j) == gf_mul (2 ^ j) (2 ^ i))) ≡ true
unfolding all_below gf_mul
comm_table = refl

assoc_table :
    all_below 8 (λ i. all_below 8 (λ j.
      all_below 8
        (λ k. gf_mul (gf_mul (2 ^ i) (2 ^ j)) (2 ^ k) == gf_mul (2 ^ i) (gf_mul (2 ^ j) (2 ^ k)))))
    ≡ true
unfolding all_below gf_mul
assoc_table = refl

one_table : all_below 256 (λ a. gf_mul a 1 == a) ≡ true
unfolding all_below gf_mul
one_table = refl

inv_checked : (a : ℕ) → Option ℕ → Bool
inv_checked a o = elim o [ none ↦ false | some x ↦ ltb x 256 && gf_mul a x == 1 ]

inv_table : all_below 255 (λ a. inv_checked (a + 1) (gf_inv (a + 1))) ≡ true
unfolding all_below gf_inv inv_checked
inv_table = refl

module _ (i j : ℕ) (hi : i < 8) (hj : j < 8) where
  comm_power : gf_mul (2 ^ i) (2 ^ j) ≡ gf_mul (2 ^ j) (2 ^ i)
  comm_power = (==_iff _ _).0 (all_below_sound 8 _ j (all_below_sound 8 _ i comm_table hi) hj)

  assoc_power :
      (k : ℕ)
      → k < 8
      → gf_mul (gf_mul (2 ^ i) (2 ^ j)) (2 ^ k) ≡ gf_mul (2 ^ i) (gf_mul (2 ^ j) (2 ^ k))
  assoc_power k hk =
      (==_iff _ _).0
        (all_below_sound 8 _ k (all_below_sound 8 _ j (all_below_sound 8 _ i assoc_table hi) hj) hk)

comm_left : (j : ℕ) → j < 8 → (a : ℕ) → a < 256 → gf_mul a (2 ^ j) ≡ gf_mul (2 ^ j) a
comm_left j hj =
    linear_ext (λ a. gf_mul a (2 ^ j)) (gf_mul (2 ^ j)) (left (2 ^ j) (power-byte j hj))
      (right (2 ^ j)) (λ i hi. comm_power i j hi hj)

pub gf_mul_comm : (a b : ℕ) → a < 256 → b < 256 → gf_mul a b ≡ gf_mul b a
gf_mul_comm a b ha hb =
    linear_ext (gf_mul a) (λ b. gf_mul b a) (right a) (left a ha) (λ j hj. comm_left j hj a ha) b hb

assoc_first :
    (j k : ℕ)
    → j < 8
    → k < 8
    → (a : ℕ) → a < 256
    → gf_mul (gf_mul a (2 ^ j)) (2 ^ k) ≡ gf_mul a (gf_mul (2 ^ j) (2 ^ k))
assoc_first j k hj hk =
    let pj = power-byte j hj in
    let pk = power-byte k hk in
    linear_ext (λ a. gf_mul (gf_mul a (2 ^ j)) (2 ^ k)) (λ a. gf_mul a (gf_mul (2 ^ j) (2 ^ k)))
      (left_after (2 ^ j) (2 ^ k) pj pk) (left _ (gf_mul-byte (2 ^ j) (2 ^ k) pj pk))
      (λ i hi. assoc_power i j hi hj k hk)

assoc_second :
    (k : ℕ)
    → k < 8
    → (a b : ℕ) → a < 256
    → b < 256
    → gf_mul (gf_mul a b) (2 ^ k) ≡ gf_mul a (gf_mul b (2 ^ k))
assoc_second k hk a b ha hb =
    linear_ext (λ b. gf_mul (gf_mul a b) (2 ^ k)) (λ b. gf_mul a (gf_mul b (2 ^ k)))
      (middle_inner a (2 ^ k) ha (power-byte k hk)) (middle_outer a (2 ^ k) (power-byte k hk))
      (λ j hj. assoc_first j k hj hk a ha) b hb

pub gf_mul_assoc :
    (a b c : ℕ) → a < 256 → b < 256 → c < 256 → gf_mul (gf_mul a b) c ≡ gf_mul a (gf_mul b c)
gf_mul_assoc a b c ha hb hc =
    linear_ext (λ c. gf_mul (gf_mul a b) c) (λ c. gf_mul a (gf_mul b c)) (right (gf_mul a b))
      (right_after a b hb) (λ k hk. assoc_second k hk a b ha hb) c hc

pub gf_mul-one : (a : ℕ) → a < 256 → gf_mul a 1 ≡ a
gf_mul-one a h = (==_iff _ _).0 (all_below_sound 256 _ a one_table h)

pub one-gf_mul : (a : ℕ) → a < 256 → gf_mul 1 a ≡ a
one-gf_mul a h = gf_mul_comm 1 a (omega arith) h ∙ gf_mul-one a h

inv_at : (a : ℕ) → 0 < a → a < 256 → inv_checked a (gf_inv a) ≡ true
inv_at zero p h = absurd (omega arith)
inv_at (suc a) p h = rw add-one at (all_below_sound 255 _ a inv_table (omega arith))

-- Every byte but zero has an inverse, which the search finds.
pub gf_inv_total :
    (a : ℕ) → 0 < a → a < 256 → (x : ℕ) × (gf_inv a ≡ some x) × (x < 256) × (gf_mul a x ≡ 1)
gf_inv_total a p h = elim (Option-cases (gf_inv a)) [
  | inl missed ↦ absurd (impossible (ap (inv_checked a) (sym missed) ∙ inv_at a p h))
  | inr (x, found) ↦
      let checked = ap (inv_checked a) (sym found) ∙ inv_at a p h in
      (x, found, bound x checked, inverse x checked)
]
  where
    impossible : inv_checked a none ≡ true → ⊥
    impossible e = unfold inv_checked in cc

    bound : (x : ℕ) → inv_checked a (some x) ≡ true → x < 256
    bound x e = unfold inv_checked in ground arith

    inverse : (x : ℕ) → inv_checked a (some x) ≡ true → gf_mul a x ≡ 1
    inverse x e = unfold inv_checked in ground arith
