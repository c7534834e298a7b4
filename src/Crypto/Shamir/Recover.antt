-- ===== src/Crypto/Shamir/Recover.antt =====
-- One byte of a secret and its shares, in `shamirSplit` and `shamirCombine` of
-- backend/static/js/lib/crypto.js.
use cryptis_dchat_project.Prelude.{
  ℕ, zero, suc, ◌<◌, ◌≡◌, ◌≢◌, refl, sym, ap, ap₂, ◌∙◌, bit_xor, [], ◌∷◌, arith,
}
use cryptis_dchat_project.Prelude.Xor.{
  zero-bit_xor, bit_xor-zero, bit_xor_self, bit_xor_assoc, bit_xor_comm,
}
use cryptis_dchat_project.Crypto.Gf.{gf_mul}
use cryptis_dchat_project.Crypto.Gf.Linear.{
  bit_xor-byte, gf_mul-byte, gf_mul-left, gf_mul-right, xor_swap,
}
use cryptis_dchat_project.Crypto.Gf.Field.{
  gf_mul_comm, gf_mul_assoc, gf_mul-one, one-gf_mul, gf_inv_total,
}
use cryptis_dchat_project.Crypto.Shamir.{eval_share}

-- A line through `s` at 0 with slope `c`.
abbrev pub line : ℕ → ℕ → ℕ → ℕ
line s c x = bit_xor s (gf_mul c x)

pub eval_share-line :
    (s c x : ℕ) → s < 256 → c < 256 → x < 256 → eval_share 0 1 x (s ∷ c ∷ []) ≡ line s c x
unfolding eval_share
eval_share-line s c x hs hc hx =
    ap₂ bit_xor (zero-bit_xor (gf_mul s 1) ∙ gf_mul-one s hs) (ap (gf_mul c) (one-gf_mul x hx))

pub ne-bit_xor_pos : (a b : ℕ) → a ≢ b → 0 < bit_xor a b
ne-bit_xor_pos a b ne = positive (bit_xor a b) refl
  where
    equal : bit_xor a b ≡ 0 → a ≡ b
    equal e =
        sym (bit_xor-zero a)
        ∙ ap (bit_xor a) (sym (bit_xor_self b))
        ∙ sym (bit_xor_assoc a b b)
        ∙ ap (λ t. bit_xor t b) e
        ∙ zero-bit_xor b

    positive : (d : ℕ) → bit_xor a b ≡ d → 0 < d
    positive zero e = absurd (ne (equal e))
    positive (suc d) e = omega arith

module _ (s c x y w : ℕ) (hs : s < 256) (hc : c < 256) (hx : x < 256) (hy : y < 256)
    (hw : w < 256) where
  -- One summand of the interpolation.
  term :
      gf_mul (line s c x) (gf_mul y w)
      ≡ bit_xor (gf_mul s (gf_mul y w)) (gf_mul c (gf_mul (gf_mul x y) w))
  term =
      gf_mul-left s (gf_mul c x) (gf_mul y w) hs (gf_mul-byte c x hc hx) (gf_mul-byte y w hy hw)
      ∙ ap (bit_xor (gf_mul s (gf_mul y w))) (
          gf_mul_assoc c x (gf_mul y w) hc hx (gf_mul-byte y w hy hw)
          ∙ ap (gf_mul c) (sym (gf_mul_assoc x y w hx hy hw)))

-- The weights of two points add up to the value at 0.
pub interpolate :
    (s c x y w : ℕ)
    → s < 256
    → c < 256
    → x < 256
    → y < 256
    → w < 256
    → gf_mul (bit_xor x y) w ≡ 1
    → bit_xor (gf_mul (line s c x) (gf_mul y w)) (gf_mul (line s c y) (gf_mul x w)) ≡ s
interpolate s c x y w hs hc hx hy hw inverse =
    ap₂ bit_xor (term s c x y w hs hc hx hy hw) (term s c y x w hs hc hy hx hw)
    ∙ xor_swap (gf_mul s (gf_mul y w)) (gf_mul c (gf_mul (gf_mul x y) w)) (gf_mul s (gf_mul x w))
        (gf_mul c (gf_mul (gf_mul y x) w))
    ∙ ap₂ bit_xor
        (sym (
            gf_mul-right s (gf_mul y w) (gf_mul x w) (gf_mul-byte y w hy hw)
              (gf_mul-byte x w hx hw))
          ∙ ap (gf_mul s)
              (sym (gf_mul-left y x w hy hx hw) ∙ ap (λ t. gf_mul t w) (bit_xor_comm y x) ∙ inverse)
          ∙ gf_mul-one s hs)
        (ap (λ t. bit_xor (gf_mul c (gf_mul (gf_mul x y) w)) (gf_mul c (gf_mul t w)))
            (gf_mul_comm y x hy hx)
          ∙ bit_xor_self _)
    ∙ bit_xor-zero s

-- A share at `x` with value `v` is one of every secret `s`: some slope goes through both.
pub one_share_hides :
    (s x v : ℕ)
    → s < 256
    → 0 < x
    → x < 256
    → v < 256
    → (c : ℕ) × (c < 256) × (eval_share 0 1 x (s ∷ c ∷ []) ≡ v)
one_share_hides s x v hs px hx hv =
    let (w, found, hw, inverse) = gf_inv_total x px hx in
    let c = gf_mul (bit_xor s v) w in
    let hsv = bit_xor-byte s v hs hv in
    let hc = gf_mul-byte (bit_xor s v) w hsv hw in
    (
      c,
      hc,
      eval_share-line s c x hs hc hx
          ∙ ap (bit_xor s) (
              gf_mul_assoc (bit_xor s v) w x hsv hw hx
              ∙ ap (gf_mul (bit_xor s v)) (gf_mul_comm w x hw hx ∙ inverse)
              ∙ gf_mul-one (bit_xor s v) hsv)
          ∙ sym (bit_xor_assoc s s v)
          ∙ ap (λ t. bit_xor t v) (bit_xor_self s)
          ∙ zero-bit_xor v,
    )
