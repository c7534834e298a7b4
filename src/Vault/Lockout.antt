-- ===== src/Vault/Lockout.antt =====
-- The wrong PINs that backend/static/js/lib/vault.js counts, over time.
use cryptis_dchat_project.Prelude.{
  ℕ, ◌+◌, ◌-◌, ◌*◌, ◌/◌, ◌≤◌, ◌<◌, ◌≡◌, ◌⊎◌, inl, inr, Bool, true, false, Bool-cases, none, some,
  arith, ◌==◌, ap, ◌∙◌, if◌then◌else◌, List, [], ◌∷◌,
}
use cryptis_dchat_project.Vault.{
  Bytes, Browser, Cipher, Box, Meta, Vault, Result, err, locked, read_raw, truthy, locked_until_at,
  iterations, lock_ms, unlock, try_pin, fail_unlock, count_failure,
}

-- The count and the lock, where `n` PINs were tried since `t0` until `t`, with `l` locks before.
abbrev Counted : ℕ → ℕ → ℕ → ℕ → Meta → Type 0
Counted t0 l n t m =
    (t0 + l * lock_ms ≤ t)
    × ((m.failed < 10) × (m.locked_until ≡ 0) × (n ≤ 10 * l + m.failed)
        ⊎ (m.failed ≡ 10) × (n ≤ 10 * l + 10) × (t0 + (l + 1) * lock_ms ≤ m.locked_until))

-- One more PIN is tried at `now`.
count_failure-Counted :
    (t0 l n t start now : ℕ) (m : Meta)
    → t ≤ start
    → start ≤ now
    → locked_until_at start m ≡ 0
    → Counted t0 l n t m
    → (l' : ℕ) × Counted t0 l' (n + 1) now (count_failure now m).0
unfolding count_failure locked_until_at
count_failure-Counted t0 l n t start now m ht hs free (age, inl (few, unlocked, bound)) =
    (l, ground arith)
count_failure-Counted t0 l n t start now m ht hs free (age, inr (full, bound, over)) =
    (l + 1, ground arith)

-- One call of `unlock`: when it is made, when the PIN is judged, and the PIN.
pub record Attempt : Type 0 where
  pub start : ℕ
  pub now : ℕ
  pub pin : Bytes

-- Attempts one after the other, from `t` to `t1`.
abbrev pub Ordered : ℕ → ℕ → List Attempt → Type 0
Ordered t t1 [] = t ≤ t1
Ordered t t1 (a ∷ attempts) = (t ≤ a.start) × (a.start ≤ a.now) × Ordered a.now t1 attempts

module _ (c : Cipher) (b : Browser) where
  -- While a lock runs every PIN, the right one too, is refused, and nothing changes.
  pub unlock_locked :
      (start now : ℕ) (pin : Bytes) (v : Vault c)
      → start < v.store.meta.locked_until
      → unlock c b start now pin v ≡ (v, err locked)
  unfolding unlock locked_until_at
  unlock_locked start now pin v h = ground arith

module _ (c : Cipher) (b : Browser) (box : Box) where
  open c use {State, derive, decrypt}

  -- The PIN does not open the box.
  abbrev pub Wrong : Bytes → Type 0
  Wrong pin = decrypt (derive pin box.salt iterations) box.iv box.ct ≡ none

  abbrev pub AllWrong : List Attempt → Type 0
  AllWrong [] = Unit
  AllWrong (a ∷ attempts) = Wrong a.pin × AllWrong attempts

  -- Whether an attempt on the vault was refused: it is answered with `locked`, and is not counted.
  abbrev is_refused : Vault c → Vault c × Result State → Bool
  is_refused v (v', err locked) = v'.store.meta.failed == v.store.meta.failed
  is_refused v r = false

  -- How many of the attempts are not refused.
  pub tried : List Attempt → Vault c → ℕ
  tried [] v = 0
  tried (a ∷ attempts) v =
      let out = unlock c b a.start a.now a.pin v in
      (if is_refused v out then 0 else 1) + tried attempts out.0

  tried-one :
      (a : Attempt) (attempts : List Attempt) (v : Vault c)
      → tried (a ∷ attempts) v ≤ 1 + tried attempts (unlock c b a.start a.now a.pin v).0
  unfolding tried
  tried-one a attempts v = at_most (is_refused v (unlock c b a.start a.now a.pin v)) _
    where
      at_most : (refused : Bool) (n : ℕ) → (if refused then 0 else 1) + n ≤ 1 + n
      at_most true n = omega arith
      at_most false n = omega arith

  tried-refused :
      (a : Attempt) (attempts : List Attempt) (v : Vault c)
      → unlock c b a.start a.now a.pin v ≡ (v, err locked)
      → tried (a ∷ attempts) v ≡ tried attempts v
  unfolding tried
  tried-refused a attempts v same =
      ap (λ out. (if is_refused v out then 0 else 1) + tried attempts out.0) same
      ∙ at (v.store.meta.failed == v.store.meta.failed) (ground arith)
    where
      at : (b : Bool) → b ≡ true → (if b then 0 else 1) + tried attempts v ≡ tried attempts v
      at true h = omega arith
      at false h = absurd (cc h)

  abbrev pub HasBox : Vault c → Type 0
  HasBox v = truthy (read_raw b v.store) ≡ some box

  unlock-Wrong :
      (a : Attempt) (v : Vault c)
      → HasBox v
      → Wrong a.pin
      → locked_until_at a.start v.store.meta ≡ 0
      → (unlock c b a.start a.now a.pin v).0
        ≡ record v { store = record v.store { meta = (count_failure a.now v.store.meta).0 } }
  unfolding unlock
  unlock-Wrong a v h wrong free =
      rw (free, h, unlock) (unfold try_pin fail_unlock in rw (wrong, try_pin))

  tried-Counted :
      (t0 l n t t1 : ℕ) (attempts : List Attempt) (v : Vault c)
      → HasBox v
      → AllWrong attempts
      → Ordered t t1 attempts
      → Counted t0 l n t v.store.meta
      → (l' : ℕ) × (t0 + l' * lock_ms ≤ t1) × (n + tried attempts v ≤ 10 * l' + 10)
  unfolding tried read_raw
  tried-Counted t0 l n t t1 [] v h wrong ord (age, inl (few, unlocked, bound)) =
      (l, omega arith, omega arith)
  tried-Counted t0 l n t t1 [] v h wrong ord (age, inr (full, bound, over)) =
      (l, omega arith, omega arith)
  tried-Counted t0 l n t t1 (a ∷ attempts) v h (wrong, wrongs) (ht, hs, ord) counted =
      elim (Bool-cases (locked_until_at a.start v.store.meta == 0)) [
        | inl free ↦
            let zero_lock : locked_until_at a.start v.store.meta ≡ 0 = ground arith in
            let (l', counted') =
              count_failure-Counted t0 l n t a.start a.now v.store.meta ht hs zero_lock counted in
            let after = record v {
              store = record v.store { meta = (count_failure a.now v.store.meta).0 };
            } in
            let (l'', age, bound) =
              tried-Counted t0 l' (n + 1) a.now t1 attempts after h wrongs ord counted' in
            let same : tried attempts (unlock c b a.start a.now a.pin v).0 ≡ tried attempts after =
              ap (λ u. tried attempts u) (unlock-Wrong a v h wrong zero_lock) in
            (l'', age, omega (arith, tried-one a attempts v, same, bound))
        | inr running ↦
            let lt : a.start < v.store.meta.locked_until = unfold locked_until_at in ground arith in
            let (l'', age, bound) =
              tried-Counted t0 l n a.now t1 attempts v h wrongs ord (later counted) in
            let same = tried-refused a attempts v (unlock_locked c b a.start a.now a.pin v lt) in
            (l'', age, omega (arith, same, bound))
      ]
    where
      later : Counted t0 l n t v.store.meta → Counted t0 l n a.now v.store.meta
      later (age, state) = (omega arith, state)

  -- However wrong PINs for a stored vault are spread over a time, `unlock` refuses all of them but at
  -- most ten for each whole lock time that fits in it, and ten more: an attempt is refused where
  -- `unlock` answers `locked` and leaves the count as it was. The count starts at 0, with no lock.
  pub tried-le :
      (t0 t1 : ℕ) (attempts : List Attempt) (v : Vault c)
      → HasBox v
      → AllWrong attempts
      → Ordered t0 t1 attempts
      → v.store.meta.failed ≡ 0
      → v.store.meta.locked_until ≡ 0
      → tried attempts v ≤ 10 * ((t1 - t0) / lock_ms) + 10
  tried-le t0 t1 attempts v h wrong ord none_failed unlocked =
      let (l, age, bound) =
        tried-Counted t0 0 0 t0 t1 attempts v h wrong ord
          (omega arith, inl (omega arith, unlocked, omega arith)) in
      omega arith
