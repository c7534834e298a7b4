-- ===== src/Wire/Varint.antt =====
-- `pushVarint` and `readVarint` of backend/static/js/lib/proto.js. Numbers are doubles: exact
-- below 2 ^ 53, rounded to the nearest above.
use cryptis_dchat_project.Prelude.{
  ℕ, zero, suc, ◌+◌, ◌*◌, ◌/◌, ◌%◌, ◌^◌, ◌≤◌, ◌<◌, ◌≡◌, refl, ap, ◌∙◌, bit_and, bit_or, ◌==◌, ltb,
  leb, if◌then◌else◌, true, false, ◌&&◌, ◌||◌, List, [], ◌∷◌, ◌++◌, arith, length, Bool-cases, inl,
  inr, tests, leb→le,
}
use native.Mathlib.Nat.{pow-suc}
use cryptis_dchat_project.Prelude.Range.{all_below, all_below_sound}
use cryptis_dchat_project.Wire.Types.{
  Result, ok, err, bad_varint, truncated_varint, varint_too_long,
}

-- The distance of two doubles at `n`: a power of two at least `u`.
unfoldable pub spacing : ℕ → ℕ → ℕ → ℕ
spacing zero u n = u
spacing (suc fuel) u n = let more = spacing fuel (u * 2) n in if ltb n (u * 2 ^ 53) then u else more

-- The double nearest to a sum below 2 ^ 80; a tie goes to the even one.
unfoldable pub to_double : ℕ → ℕ
unfolding spacing
to_double n =
    let u = spacing 30 1 n in
    let q = n / u in
    let r = n % u in
    if ltb (r * 2) u then q * u else if ltb u (r * 2) || q % 2 == 1 then (q + 1) * u else q * u

-- `while (v >= 0x80)`, with a round more than `v` for fuel.
unfoldable pub push_groups : ℕ → ℕ → List ℕ
push_groups zero v = []
push_groups (suc fuel) v =
    let more = bit_or (v % 0x80) 0x80 ∷ push_groups fuel (v / 0x80) in
    if leb 0x80 v then more else v ∷ []

-- `Number.isSafeInteger(v)` for a natural number.
unfoldable pub push_varint : ℕ → Result (List ℕ)
unfolding push_groups
push_varint v = if ltb v (2 ^ 53) then ok (push_groups (v + 1) v) else err bad_varint

-- `readVarint` on what is left of the buffer; it returns the value and what is then left.
unfoldable pub read_groups : List ℕ → ℕ → ℕ → Result (ℕ × List ℕ)
unfolding to_double
read_groups [] result mul = err truncated_varint
read_groups (b ∷ buf) result mul =
    let result' = to_double (result + bit_and b 0x7f * mul) in
    let more = read_groups buf result' (mul * 0x80) in
    if bit_and b 0x80 == 0
    then ok (result', buf)
    else if ltb (2 ^ 63) (mul * 0x80)
    then err varint_too_long
    else more

unfoldable pub read_varint : List ℕ → Result (ℕ × List ℕ)
unfolding read_groups
read_varint buf = read_groups buf 0 1

to_double_exact : (n : ℕ) → n < 2 ^ 53 → to_double n ≡ n
unfolding to_double
to_double_exact n h = ground arith

low_table : all_below 128 (λ v. bit_and v 0x7f == v && bit_and v 0x80 == 0) ≡ true
unfolding all_below
low_table = refl

high_table :
    all_below 128 (λ v. bit_and (bit_or v 0x80) 0x7f == v && bit_and (bit_or v 0x80) 0x80 == 128)
    ≡ true
unfolding all_below
high_table = refl

low_byte : (v : ℕ) → v < 128 → (bit_and v 0x7f ≡ v) × (bit_and v 0x80 ≡ 0)
low_byte v h =
    ground
      (arith, all_below_sound 128 (λ v. bit_and v 0x7f == v && bit_and v 0x80 == 0) v low_table h)

high_byte :
    (v : ℕ) → v < 128 → (bit_and (bit_or v 0x80) 0x7f ≡ v) × (bit_and (bit_or v 0x80) 0x80 ≡ 128)
high_byte v h = ground (
  arith,
  all_below_sound 128
      (λ v. bit_and (bit_or v 0x80) 0x7f == v && bit_and (bit_or v 0x80) 0x80 == 128) v high_table
      h,
)

-- Reading gives the value back, and leaves what follows.
read_groups-push_groups :
    (fuel v result mul : ℕ) (rest : List ℕ)
    → v < fuel
    → result + v * mul < 2 ^ 53
    → 0 < mul
    → read_groups (push_groups fuel v ++ rest) result mul ≡ ok (result + v * mul, rest)
unfolding push_groups read_groups
read_groups-push_groups zero v result mul rest h fits pos = absurd (omega arith)
read_groups-push_groups (suc fuel) v result mul rest h fits pos = elim (Bool-cases (leb 0x80 v)) [
  | inl more ↦
      let (value, flag) = high_byte (v % 128) (omega arith) in
      let small : result + v % 128 * mul < 2 ^ 53 = bound (v / 128) (v % 128) split in
      rw (more, value, flag, to_double_exact _ small)
        (rw (room more) (
          read_groups-push_groups fuel (v / 128) (result + v % 128 * mul) (mul * 128) rest
            (omega (tests, more)) (rw (regroup (v / 128) (v % 128) split) fits) (omega arith)
          ∙ ap (λ n. ok (n, rest)) (regroup (v / 128) (v % 128) split)))
  | inr last ↦
      let (value, flag) = low_byte v (omega (tests, leb-lt v last)) in
      rw (last, value, flag, to_double_exact _ fits) refl
]
  where
    split : v ≡ v / 128 * 128 + v % 128
    split = omega arith

    leb-lt : (v : ℕ) → leb 128 v ≡ false → v < 128
    leb-lt v e = ground arith

    regroup : (q r : ℕ) → v ≡ q * 128 + r → result + r * mul + q * (mul * 128) ≡ result + v * mul
    regroup q r e = omega (arith, ap (λ (t : ℕ). t * mul) e)

    bound : (q r : ℕ) → v ≡ q * 128 + r → result + r * mul < 2 ^ 53
    bound q r e = omega (arith, ap (λ (t : ℕ). t * mul) e)

    at_least : (v : ℕ) → 128 ≤ v → mul ≤ v * mul
    at_least zero e = absurd (omega arith)
    at_least (suc v) e = omega arith

    room : leb 128 v ≡ true → ltb (2 ^ 63) (mul * 128) ≡ false
    room e = ground (arith, at_least v (leb→le _ _ e))

-- Whatever was written is read back, and what follows it is left.
pub read_varint-push_varint :
    (v : ℕ) (written rest : List ℕ)
    → push_varint v ≡ ok written
    → read_varint (written ++ rest) ≡ ok (v, rest)
unfolding push_varint read_varint
read_varint-push_varint v written rest h = elim (Bool-cases (ltb v (2 ^ 53))) [
  | inl safe ↦
      let same : push_groups (v + 1) v ≡ written = groups safe in
      rw (← same) (
        read_groups-push_groups (v + 1) v 0 1 rest (omega arith) (omega (tests, safe)) (omega arith)
        ∙ ap (λ n. ok (n, rest)) (omega arith))
  | inr unsafe ↦ absurd (never unsafe)
]
  where
    groups : ltb v (2 ^ 53) ≡ true → push_groups (v + 1) v ≡ written
    groups e = ground arith

    never : ltb v (2 ^ 53) ≡ false → ⊥
    never e = ground arith

-- A value is read with at least one byte.
read_groups-shrinks :
    (buf : List ℕ) (result mul : ℕ) (v : ℕ) (rest : List ℕ)
    → read_groups buf result mul ≡ ok (v, rest)
    → length rest < length buf
unfolding read_groups
read_groups-shrinks [] result mul v rest h = absurd (cc)
read_groups-shrinks (b ∷ buf) result mul v rest h =
    ground (
      arith,
      read_groups-shrinks buf (to_double (result + bit_and b 0x7f * mul)) (mul * 0x80) v rest,
    )

pub read_varint-shrinks :
    (buf : List ℕ) (v : ℕ) (rest : List ℕ)
    → read_varint buf ≡ ok (v, rest)
    → length rest < length buf
unfolding read_varint
read_varint-shrinks buf v rest h = read_groups-shrinks buf 0 1 v rest h

-- A safe integer is written, in at most eight bytes; any other is refused.
push_groups-length : (k fuel v : ℕ) → v < 128 ^ suc k → length (push_groups fuel v) ≤ suc k
unfolding push_groups
push_groups-length k zero v h = omega arith
push_groups-length zero (suc fuel) v h = ground (arith, no_more)
  where
    no_more : leb 128 v ≡ false
    no_more = ground arith
push_groups-length (suc k) (suc fuel) v h =
    ground (arith, push_groups-length k fuel (v / 128) (omega (arith, pow-suc 128 (suc k))))
