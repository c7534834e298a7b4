-- ===== src/Lifecycle/Entry.antt =====
-- The passcode that is entered at a gate: `submitGate` of backend/static/js/app/handlers.js.
use cryptis_dchat_project.Prelude.{
  ℕ, ◌≡◌, ◌≢◌, refl, sym, ap, ◌∙◌, ltb, if◌then◌else◌, true, Bool-cases, inl, inr, String, str_eq,
  eq_iff, arith, ltb→lt, if-holds, List, [], ◌∷◌,
}
use cryptis_dchat_project.Lifecycle.{
  Mode, boot, busy, unlock, profile_setup, setup, setup_confirm, restore, reset, pairing_pin,
  no_match, Gate, gate_of,
}

-- What the passcode that was entered leads to, beside a change of the gate.
pub data Call : Type 0 where
  nothing : Call
  pairing unlocking setting_up restoring : (pin : String) → Call

-- `submitGate` up to its calls of the data layer.
unfoldable pub submit_at : Mode → String → Gate → Gate × Call
submit_at pairing_pin pin g = (g, pairing pin)
submit_at unlock pin g = (record g { is_busy = true }, unlocking pin)
submit_at setup pin g =
    (record (gate_of setup_confirm) { first = pin; is_reset = g.is_reset }, nothing)
submit_at setup_confirm pin g =
    if str_eq pin g.first
    then (g, setting_up pin)
    else (record (gate_of setup) { message = no_match }, nothing)
submit_at restore pin g = (g, restoring pin)
submit_at boot pin g = (g, nothing)
submit_at busy pin g = (g, nothing)
submit_at profile_setup pin g = (g, nothing)
submit_at reset pin g = (g, nothing)

unfoldable pub submit_gate : ℕ → String → Gate → Gate × Call
unfolding submit_at
submit_gate now pin g = if ltb now g.locked_until then (g, nothing) else submit_at g.mode pin g

submit_at-setting_up :
    (m : Mode) (pin p : String) (g : Gate)
    → (submit_at m pin g).1 ≡ setting_up p
    → (m ≡ setup_confirm) × (g.first ≡ p) × (pin ≡ p)
unfolding submit_at
submit_at-setting_up setup_confirm pin p g h = ground (arith, eq_iff pin g.first, h)
submit_at-setting_up m pin p g h = absurd (cc h)

submit_gate-setting_up :
    (now : ℕ) (pin p : String) (g : Gate)
    → (submit_gate now pin g).1 ≡ setting_up p
    → (g.mode ≡ setup_confirm) × (g.first ≡ p) × (pin ≡ p)
unfolding submit_gate
submit_gate-setting_up now pin p g h = elim (Bool-cases (ltb now g.locked_until)) [
  | inl locked ↦
      absurd
        (cc (sym (ap (λ b. (if b then (g, nothing) else submit_at g.mode pin g).1) locked) ∙ h))
  | inr free ↦
      submit_at-setting_up g.mode pin p g
        (sym (ap (λ b. (if b then (g, nothing) else submit_at g.mode pin g).1) free) ∙ h)
]

-- A gate that asks for the passcode again has no lock, and remembers the one that was entered.
abbrev Confirms : String → Gate → Type 0
Confirms pin g = g.mode ≡ setup_confirm → (g.locked_until ≡ 0) × (g.first ≡ pin)

abbrev IsFree : Gate → Type 0
IsFree g = g.mode ≡ setup_confirm → g.locked_until ≡ 0

submit_at-Confirms :
    (m : Mode) (pin : String) (g : Gate)
    → m ≡ g.mode
    → IsFree g
    → Confirms pin (submit_at m pin g).0
unfolding submit_at
submit_at-Confirms setup pin g at free = λ e. (refl, refl)
submit_at-Confirms setup_confirm pin g at free =
    λ e. ground (arith, eq_iff pin g.first, free, at, e)
submit_at-Confirms unlock pin g at free = λ e. absurd (cc (at, e))
submit_at-Confirms m pin g at free = λ e. absurd (cc (at, e))

submit_gate-Confirms :
    (now : ℕ) (pin : String) (g : Gate) → IsFree g → Confirms pin (submit_gate now pin g).0
unfolding submit_gate
submit_gate-Confirms now pin g free =
    if-holds (λ (r : Gate × Call). Confirms pin r.0) (ltb now g.locked_until) (g, nothing)
      (submit_at g.mode pin g) (λ locked e. absurd (no_lock locked (free e)))
      (λ e. submit_at-Confirms g.mode pin g refl free)
  where
    no_lock : ltb now g.locked_until ≡ true → g.locked_until ≡ 0 → ⊥
    no_lock h z = omega (arith, ltb→lt now g.locked_until h)

-- The gate after passcodes were entered at some times, the last one first.
unfoldable pub after : Gate → List (ℕ × String) → Gate
unfolding submit_gate
after g [] = g
after g ((now, pin) ∷ earlier) = (submit_gate now pin (after g earlier)).0

after-IsFree :
    (g : Gate) (entries : List (ℕ × String)) → g.mode ≢ setup_confirm → IsFree (after g entries)
unfolding after
after-IsFree g [] other = λ e. absurd (other e)
after-IsFree g ((now, pin) ∷ earlier) other =
    λ e. (submit_gate-Confirms now pin (after g earlier) (after-IsFree g earlier other) e).0

-- Keys are set up with a passcode only if it was entered twice in a row, whatever was entered before,
-- starting from a gate that does not ask for a repetition.
pub submit_gate-twice :
    (g : Gate) (entries : List (ℕ × String)) (now : ℕ) (pin p : String)
    → g.mode ≢ setup_confirm
    → (submit_gate now pin (after g entries)).1 ≡ setting_up p
    → (pin ≡ p) × ((time : ℕ) × (earlier : List (ℕ × String)) × (entries ≡ (time, p) ∷ earlier))
unfolding after
submit_gate-twice g [] now pin p other h = absurd (other (submit_gate-setting_up now pin p g h).0)
submit_gate-twice g ((time, before) ∷ earlier) now pin p other h =
    let (confirming, first, same) = submit_gate-setting_up now pin p _ h in
    let (free, entered) =
      submit_gate-Confirms time before (after g earlier) (after-IsFree g earlier other)
        confirming in
    (same, (time, earlier, ap (λ s. (time, s) ∷ earlier) (sym entered ∙ first)))
