-- ===== src/Crypto/Gf.antt =====
-- The arithmetic of GF(256) in backend/static/js/lib/crypto.js.
pub mod Linear
pub mod Field
use cryptis_dchat_project.Prelude.{
  ℕ, zero, suc, ◌*◌, ◌/◌, ◌+◌, Option, none, some, bit_and, bit_xor, ◌==◌, if◌then◌else◌, ◌≡◌, refl,
}

-- `a <<= 1; if (a & 0x100) a ^= 0x11b`
unfoldable pub xtime : ℕ → ℕ
xtime a = if bit_and (a * 2) 0x100 == 0 then a * 2 else bit_xor (a * 2) 0x11b

-- The loop `while (b)` over p, a and b. A byte b takes eight rounds.
unfoldable pub gf_mul_loop : ℕ → ℕ → ℕ → ℕ → ℕ
unfolding xtime
gf_mul_loop zero p a b = p
gf_mul_loop (suc fuel) p a b =
    let next = gf_mul_loop fuel (if bit_and b 1 == 0 then p else bit_xor p a) (xtime a) (b / 2) in
    if b == 0 then p else next

unfoldable pub gf_mul : ℕ → ℕ → ℕ
unfolding gf_mul_loop
gf_mul a b = gf_mul_loop 8 0 a b

-- `for (let x = 1; x < 256; x++)`, with the rounds that are left; `none` is the thrown error.
unfoldable pub gf_inv_from : ℕ → ℕ → ℕ → Option ℕ
unfolding gf_mul
gf_inv_from zero a x = none
gf_inv_from (suc left) a x =
    let next = gf_inv_from left a (x + 1) in if gf_mul a x == 1 then some x else next

unfoldable pub gf_inv : ℕ → Option ℕ
unfolding gf_inv_from
gf_inv a = gf_inv_from 255 a 1

gf_mul_test : gf_mul 0x57 0x83 ≡ 0xc1
unfolding gf_mul
gf_mul_test = refl

gf_inv_test : gf_inv 0x53 ≡ some 0xca
unfolding gf_inv
gf_inv_test = refl
