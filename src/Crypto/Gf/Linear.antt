-- ===== src/Crypto/Gf/Linear.antt =====
-- `gfMul` of backend/static/js/lib/crypto.js and exclusive or, digit by digit.
use cryptis_dchat_project.Prelude.{
  ℕ, zero, suc, ◌*◌, ◌/◌, ◌%◌, ◌+◌, ◌<◌, bit_and, bit_xor, ◌==◌, ==_iff, if◌then◌else◌, ◌≡◌, refl,
  sym, ap, ◌∙◌, ltb, true, arith,
}
use cryptis_dchat_project.Prelude.Xor.{
  bit_xor-zero, bit_xor_comm, bit_xor_assoc, bit_xor_self, bit_xor_step, bit_xor-half,
  bit_xor-parity, bit_xor-lt,
}
use cryptis_dchat_project.Prelude.Range.{all_below, all_below_sound}
use cryptis_dchat_project.Crypto.Gf.{xtime, gf_mul_loop, gf_mul}

pub bit_xor-byte : (a b : ℕ) → a < 256 → b < 256 → bit_xor a b < 256
bit_xor-byte a b p q = bit_xor-lt 8 a b p q

pub xor_swap :
    (a b c d : ℕ) → bit_xor (bit_xor a b) (bit_xor c d) ≡ bit_xor (bit_xor a c) (bit_xor b d)
xor_swap a b c d =
    bit_xor_assoc a b (bit_xor c d)
    ∙ ap (bit_xor a)
        (sym (bit_xor_assoc b c d) ∙ ap (λ t. bit_xor t d) (bit_xor_comm b c) ∙ bit_xor_assoc c b d)
    ∙ sym (bit_xor_assoc a c (bit_xor b d))

-- The tables.
xtime_table : all_below 256 (λ a. xtime a == bit_xor (a * 2) (a / 128 * 0x11b)) ≡ true
unfolding all_below xtime
xtime_table = refl

xtime_byte_table : all_below 256 (λ a. ltb (xtime a) 256) ≡ true
unfolding all_below xtime
xtime_byte_table = refl

parity_table : all_below 256 (λ b. bit_and b 1 == b % 2) ≡ true
unfolding all_below
parity_table = refl

xtime_eq : (a : ℕ) → a < 256 → xtime a ≡ bit_xor (a * 2) (a / 128 * 0x11b)
xtime_eq a h = (==_iff _ _).0 (all_below_sound 256 _ a xtime_table h)

pub xtime-byte : (a : ℕ) → a < 256 → xtime a < 256
xtime-byte a h = ground (arith, all_below_sound 256 (λ a. ltb (xtime a) 256) a xtime_byte_table h)

parity_eq : (b : ℕ) → b < 256 → bit_and b 1 ≡ b % 2
parity_eq b h = (==_iff _ _).0 (all_below_sound 256 _ b parity_table h)

double-bit_xor : (a b : ℕ) → bit_xor a b * 2 ≡ bit_xor (a * 2) (b * 2)
double-bit_xor a b = rw (bit_xor_step (a * 2) (b * 2)) (rw (half a, half b) (omega arith))
  where
    half : (a : ℕ) → a * 2 / 2 ≡ a
    half a = omega arith

shift_seven : (a : ℕ) → a / 128 ≡ a / 2 / 2 / 2 / 2 / 2 / 2 / 2
shift_seven a = omega arith

top-bit_xor : (a b : ℕ) → bit_xor a b / 128 ≡ bit_xor (a / 128) (b / 128)
top-bit_xor a b = rw (shift_seven (bit_xor a b), shift_seven a, shift_seven b) (simp bit_xor-half)

times_poly : (x y : ℕ) → x < 2 → y < 2 → bit_xor x y * 0x11b ≡ bit_xor (x * 0x11b) (y * 0x11b)
times_poly zero zero p q = refl
times_poly zero (suc zero) p q = refl
times_poly (suc zero) zero p q = refl
times_poly (suc zero) (suc zero) p q = refl
times_poly (suc (suc x)) y p q = absurd (omega arith)
times_poly zero (suc (suc y)) p q = absurd (omega arith)
times_poly (suc zero) (suc (suc y)) p q = absurd (omega arith)

xtime-bit_xor : (a b : ℕ) → a < 256 → b < 256 → xtime (bit_xor a b) ≡ bit_xor (xtime a) (xtime b)
xtime-bit_xor a b p q =
    rw (xtime_eq (bit_xor a b) (bit_xor-byte a b p q), xtime_eq a p, xtime_eq b q)
      (rw
        (
          double-bit_xor a b,
          top-bit_xor a b,
          times_poly (a / 128) (b / 128) (omega arith) (omega arith),
        )
        (xor_swap (a * 2) (b * 2) (a / 128 * 0x11b) (b / 128 * 0x11b)))

-- `p` after a round that looks at the digit `d`.
abbrev add_if : ℕ → ℕ → ℕ → ℕ
add_if d p a = if d == 0 then p else bit_xor p a

gf_mul_loop-zero : (fuel p a : ℕ) → gf_mul_loop fuel p a 0 ≡ p
unfolding gf_mul_loop
gf_mul_loop-zero zero p a = refl
gf_mul_loop-zero (suc fuel) p a = refl

gf_mul_loop-suc :
    (fuel p a b : ℕ)
    → gf_mul_loop (suc fuel) p a (suc b)
      ≡ gf_mul_loop fuel (add_if (bit_and (suc b) 1) p a) (xtime a) (suc b / 2)
unfolding gf_mul_loop
gf_mul_loop-suc fuel p a b = ground arith

-- A round, without the exit of the loop.
gf_mul_round :
    (fuel p a b : ℕ)
    → b < 256
    → gf_mul_loop (suc fuel) p a b ≡ gf_mul_loop fuel (add_if (b % 2) p a) (xtime a) (b / 2)
gf_mul_round fuel p a zero h =
    gf_mul_loop-zero (suc fuel) p a ∙ sym (gf_mul_loop-zero fuel p (xtime a))
gf_mul_round fuel p a (suc b) h =
    gf_mul_loop-suc fuel p a b
    ∙ ap (λ d. gf_mul_loop fuel (add_if d p a) (xtime a) (suc b / 2)) (parity_eq (suc b) h)

add_if-byte : (d p a : ℕ) → p < 256 → a < 256 → add_if d p a < 256
add_if-byte d p a hp ha = ground (arith, bit_xor-byte p a)

-- Additivity in the left factor, for every accumulator.
loop-left :
    (fuel p q a c b : ℕ)
    → a < 256
    → c < 256
    → b < 256
    → gf_mul_loop fuel (bit_xor p q) (bit_xor a c) b
      ≡ bit_xor (gf_mul_loop fuel p a b) (gf_mul_loop fuel q c b)
loop-left zero p q a c b ha hc hb = unfold gf_mul_loop in refl
loop-left (suc fuel) p q a c b ha hc hb =
    rw
      (
        gf_mul_round fuel (bit_xor p q) (bit_xor a c) b hb,
        gf_mul_round fuel p a b hb,
        gf_mul_round fuel q c b hb,
        xtime-bit_xor a c ha hc,
        add_if-xor (b % 2) p q a c,
      )
      (loop-left fuel (add_if (b % 2) p a) (add_if (b % 2) q c) (xtime a) (xtime c) (b / 2)
        (xtime-byte a ha) (xtime-byte c hc) (omega arith))
  where
    add_if-xor :
        (d p q a c : ℕ)
        → add_if d (bit_xor p q) (bit_xor a c) ≡ bit_xor (add_if d p a) (add_if d q c)
    add_if-xor d p q a c = ground (arith, xor_swap p q a c)

-- Additivity in the right factor.
loop-right :
    (fuel p q a b d : ℕ)
    → b < 256
    → d < 256
    → gf_mul_loop fuel (bit_xor p q) a (bit_xor b d)
      ≡ bit_xor (gf_mul_loop fuel p a b) (gf_mul_loop fuel q a d)
loop-right zero p q a b d hb hd = unfold gf_mul_loop in refl
loop-right (suc fuel) p q a b d hb hd =
    rw
      (
        gf_mul_round fuel (bit_xor p q) a (bit_xor b d) (bit_xor-byte b d hb hd),
        gf_mul_round fuel p a b hb,
        gf_mul_round fuel q a d hd,
        bit_xor-half b d,
        bit_xor-parity b d,
        add_if-parity b d,
      )
      (loop-right fuel (add_if (b % 2) p a) (add_if (d % 2) q a) (xtime a) (b / 2) (d / 2)
        (omega arith) (omega arith))
  where
    add_if-digits :
        (x y : ℕ)
        → x < 2
        → y < 2
        → add_if ((x + y) % 2) (bit_xor p q) a ≡ bit_xor (add_if x p a) (add_if y q a)
    add_if-digits zero zero h k = refl
    add_if-digits zero (suc zero) h k = bit_xor_assoc p q a
    add_if-digits (suc zero) zero h k =
        bit_xor_assoc p q a ∙ ap (bit_xor p) (bit_xor_comm q a) ∙ sym (bit_xor_assoc p a q)
    add_if-digits (suc zero) (suc zero) h k =
        sym (bit_xor-zero (bit_xor p q))
        ∙ ap (bit_xor (bit_xor p q)) (sym (bit_xor_self a))
        ∙ xor_swap p q a a
    add_if-digits (suc (suc x)) y h k = absurd (omega arith)
    add_if-digits zero (suc (suc y)) h k = absurd (omega arith)
    add_if-digits (suc zero) (suc (suc y)) h k = absurd (omega arith)

    add_if-parity :
        (b d : ℕ)
        → add_if ((b + d) % 2) (bit_xor p q) a ≡ bit_xor (add_if (b % 2) p a) (add_if (d % 2) q a)
    add_if-parity b d =
        ap (λ t. add_if t (bit_xor p q) a) (parity_sum b d)
        ∙ add_if-digits (b % 2) (d % 2) (omega arith) (omega arith)
      where
        parity_sum : (b d : ℕ) → (b + d) % 2 ≡ (b % 2 + d % 2) % 2
        parity_sum b d = omega arith

loop-byte : (fuel p a b : ℕ) → p < 256 → a < 256 → b < 256 → gf_mul_loop fuel p a b < 256
loop-byte zero p a b hp ha hb = unfold gf_mul_loop in hp
loop-byte (suc fuel) p a b hp ha hb = rw (gf_mul_round fuel p a b hb) (
    loop-byte fuel (add_if (b % 2) p a) (xtime a) (b / 2) (add_if-byte (b % 2) p a hp ha)
      (xtime-byte a ha) (omega arith))

pub gf_mul-byte : (a b : ℕ) → a < 256 → b < 256 → gf_mul a b < 256
unfolding gf_mul
gf_mul-byte a b ha hb = loop-byte 8 0 a b (omega arith) ha hb

pub gf_mul-left :
    (a c b : ℕ)
    → a < 256
    → c < 256
    → b < 256
    → gf_mul (bit_xor a c) b ≡ bit_xor (gf_mul a b) (gf_mul c b)
unfolding gf_mul
gf_mul-left a c b ha hc hb = loop-left 8 0 0 a c b ha hc hb

pub gf_mul-right :
    (a b d : ℕ) → b < 256 → d < 256 → gf_mul a (bit_xor b d) ≡ bit_xor (gf_mul a b) (gf_mul a d)
unfolding gf_mul
gf_mul-right a b d hb hd = loop-right 8 0 0 a b d hb hd
