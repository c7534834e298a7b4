-- ===== src/Crypto/Shamir.antt =====
-- Secret sharing: `shamirSplit` and `shamirCombine` of backend/static/js/lib/crypto.js.
pub mod Recover
pub mod RoundTrip
mod Tests
use mathlib.Core.Option
use cryptis_dchat_project.Prelude.{
  ℕ, zero, suc, ◌+◌, ◌-◌, ◌%◌, Option, none, some, List, [], ◌∷◌, ◌++◌, map, Bool, bit_xor, ◌==◌,
  if◌then◌else◌, length, get_or, ◌>>=◌,
}
use cryptis_dchat_project.Crypto.Gf.{gf_mul, gf_inv}

-- `for (const c of coeffs) { acc ^= gfMul(c, power); power = gfMul(power, i + 1); }`
unfoldable pub eval_share : ℕ → ℕ → ℕ → List ℕ → ℕ
eval_share acc power x [] = acc
eval_share acc power x (c ∷ coeffs) =
    eval_share (bit_xor acc (gf_mul c power)) (gf_mul power x) x coeffs

-- `Array.from({ length: n }, (_, i) => [i + 1])`
unfoldable pub first_shares : ℕ → ℕ → List (List ℕ)
first_shares zero i = []
first_shares (suc n) i = ((i + 1) ∷ []) ∷ first_shares n (i + 1)

-- `for (let i = 0; i < n; i++) … shares[i].push(acc)`
unfoldable pub push_all : ℕ → List ℕ → List (List ℕ) → List (List ℕ)
unfolding eval_share
push_all i coeffs [] = []
push_all i coeffs (s ∷ shares) =
    (s ++ eval_share 0 1 (i + 1) coeffs ∷ []) ∷ push_all (i + 1) coeffs shares

-- `for (const byte of secret)`. The bytes that `random(k - 1)` draws for the byte at a position
-- are an argument.
unfoldable pub split_bytes : (ℕ → List ℕ) → ℕ → List ℕ → List (List ℕ) → List (List ℕ)
unfolding push_all
split_bytes random pos [] shares = shares
split_bytes random pos (byte ∷ secret) shares =
    split_bytes random (pos + 1) secret (push_all 0 (byte ∷ random pos) shares)

-- `Uint8Array.from(s)` keeps the low byte of each number.
unfoldable pub shamir_split : (ℕ → List ℕ) → List ℕ → ℕ → List (List ℕ)
unfolding split_bytes first_shares
shamir_split random secret n =
    map (map (λ v. v % 256)) (split_bytes random 0 secret (first_shares n 0))

pub record Fraction : Type 0 where
  pub num : ℕ
  pub den : ℕ

-- `xs.forEach((xj, j) => …)` for the share `i` at `xi`.
unfoldable pub weigh : ℕ → ℕ → ℕ → List ℕ → Fraction → Fraction
weigh i xi j [] f = f
weigh i xi j (xj ∷ xs) f =
    weigh i xi (j + 1) xs
      (if i == j then f else record { num = gf_mul f.num xj; den = gf_mul f.den (bit_xor xi xj) })

-- `shares.forEach((s, i) => …)`; `none` is the error that `gfInv` throws. A value beyond a share's
-- end is `undefined`, which the bit operations read as 0.
unfoldable pub combine_at : List ℕ → ℕ → ℕ → List (List ℕ) → ℕ → Option ℕ
unfolding weigh
combine_at xs pos i [] acc = some acc
combine_at xs pos i (s ∷ shares) acc =
    let f = weigh i (get_or xs i 0) 0 xs (record { num = 1; den = 1 }) in
    do
      inverse ← gf_inv f.den
      combine_at xs pos (i + 1) shares
          (bit_xor acc (gf_mul (get_or s pos 0) (gf_mul f.num inverse)))

-- `for (let pos = 1; pos < shares[0].length; pos++)`, with the rounds that are left.
unfoldable pub combine_from : ℕ → ℕ → List ℕ → List (List ℕ) → Option (List ℕ)
unfolding combine_at
combine_from zero pos xs shares = some []
combine_from (suc left) pos xs shares = do
  byte ← combine_at xs pos 0 shares 0
  rest ← combine_from left (pos + 1) xs shares
  some (byte ∷ rest)

-- With no share `shares[0].length` throws; `s[0]` of an empty share is read as 0 later.
unfoldable pub shamir_combine : List (List ℕ) → Option (List ℕ)
unfolding combine_from
shamir_combine [] = none
shamir_combine (s ∷ shares) =
    combine_from (length s - 1) 1 (map (λ t. get_or t 0 0) (s ∷ shares)) (s ∷ shares)
