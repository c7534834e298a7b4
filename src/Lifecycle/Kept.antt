-- ===== src/Lifecycle/Kept.antt =====
-- What becomes of the vault of backend/static/js/app/data.js.
use mathlib.Core.Path.{subst}
use cryptis_dchat_project.Prelude.{
  ℕ, ◌≡◌, refl, sym, ap, ◌∙◌, ◌≢◌, Bool, false, not, ◌&&◌, Option, none, some, String, str_eq,
  eq_iff, eq_refl, arith, if-holds, Option-cases, inl, inr,
}
use cryptis_dchat_project.Lifecycle.{
  gate_of, unlock, wrong_passcode, Tokens, Stored, Client, persist, vault_state, set_gate,
  start_app, wipe_memory, lock_app, session_ended, leaves, logout, back_to_login, Me, load, greet,
  boot_app, boot_page, is_some, renew, resume, enter, unlock_with, published, not_published,
  setup_with,
}
use cryptis_dchat_project.Lifecycle.Sealed.{
  IsSealed, persist_open, persist_shut, Step, booted, unlocked, set_up, locked, ended, logged_out,
  went_back,
}

lock_app-vault :
    (pin : String) (c : Client)
    → c.open_pin ≡ some pin
    → (lock_app c).vault ≡ some (record { pin = pin; saved = vault_state c })
unfolding lock_app set_gate wipe_memory
lock_app-vault pin c e = ap (λ (d : Client). d.vault) (persist_open pin c e)

-- A vault whose PIN is the same.
abbrev pub HasPin : String → Option Stored → Type 0
HasPin pin none = ⊥
HasPin pin (some v) = v.pin ≡ pin

-- A step that neither makes a vault nor logs out.
abbrev pub Spares : {c d : Client} → Step c d → Type 0
Spares (booted c t p a b me) = Unit
Spares (unlocked c l a n pin t at) = Unit
Spares (set_up c pin m (published v) at) = ⊥
Spares (set_up c pin m (not_published e) at) = Unit
Spares (locked c) = Unit
Spares (ended c) = Unit
Spares (logged_out c r) = leaves r ≡ false
Spares (went_back c) = Unit

persist-HasPin :
    (pin : String) (c : Client) → IsSealed c → HasPin pin c.vault → HasPin pin (persist c).vault
persist-HasPin pin c h has = elim (Option-cases c.open_pin) [
  | inl shut ↦ rw (persist_shut c shut) has
  | inr (p, open_) ↦
      let (v, stored, same) = h.stored p open_ in
      let held : HasPin pin (some v) = subst (HasPin pin) stored has in
      rw (persist_open p c open_) (sym same ∙ held)
]

saved-HasPin :
    (pin p : String) (c : Client)
    → c.open_pin ≡ some p
    → p ≡ pin
    → HasPin pin (start_app (persist c)).vault
unfolding start_app
saved-HasPin pin p c open_ same = rw (persist_open p c open_) same

renew-HasPin :
    (t : Option Tokens) (pin p : String) (c : Client)
    → c.open_pin ≡ some p
    → p ≡ pin
    → HasPin pin c.vault
    → HasPin pin (renew t c).vault
unfolding renew session_ended wipe_memory
renew-HasPin none pin p c open_ same has = has
renew-HasPin (some t) pin p c open_ same has =
    saved-HasPin pin p (record c { access = some t.access; refresh = some t.refresh }) open_ same

resume-HasPin :
    (h t : Option Tokens) (token : Option String) (pin p : String) (c : Client)
    → c.open_pin ≡ some p
    → p ≡ pin
    → HasPin pin c.vault
    → HasPin pin (resume h t token c).vault
unfolding resume session_ended wipe_memory
resume-HasPin (some h) t token pin p c open_ same has =
    saved-HasPin pin p
      (record c {
        access = some h.access;
        refresh = some h.refresh;
        handoff = none;
        cx_login = none;
      })
      open_ same
resume-HasPin none t none pin p c open_ same has = has
resume-HasPin none t (some token) pin p c open_ same has =
    renew-HasPin t pin p (record c { refresh = some token }) open_ same has

abbrev KeepsPin : String → Client → Type 0
KeepsPin pin c = HasPin pin c.vault

unlock_with-HasPin :
    (l : Bool) (a n : ℕ) (entered : String) (t : Option Tokens) (pin : String) (c : Client)
    → HasPin pin c.vault
    → HasPin pin (unlock_with l a n entered t c).vault
unfolding unlock_with set_gate enter
unlock_with-HasPin l a n entered t pin c has = elim (Option-cases c.vault) [
  | inl gone ↦ absurd (subst (HasPin pin) gone has)
  | inr (v, stored) ↦
      let same : v.pin ≡ pin = subst (HasPin pin) stored has in
      rw (unlock_with, stored)
        (if-holds (KeepsPin pin) (str_eq entered v.pin && not l) _ _
          (λ e. resume-HasPin c.handoff t v.saved.refresh pin v.pin _ refl same has) (λ e. has))
]

greet-vault :
    (a b : ℕ) (t : Tokens) (me : Option Me) (c : Client) → (greet a b t me c).vault ≡ c.vault
unfolding greet set_gate
greet-vault a b t none c = refl
greet-vault a b t (some me) c = refl

boot_app-vault : (a b : ℕ) (me : Option Me) (c : Client) → (boot_app a b me c).vault ≡ c.vault
unfolding boot_app set_gate
boot_app-vault a b me c = elim (Option-cases c.cx_login) [
  | inl gone ↦ ground (arith, gone)
  | inr (t, has) ↦ rw (boot_app, has) (greet-vault a b t me _)
]

boot_page-vault :
    (p : Bool) (a b : ℕ) (me : Option Me) (c : Client) → (boot_page p a b me c).vault ≡ c.vault
unfolding boot_page set_gate
boot_page-vault p a b me c =
    if-holds (λ (d : Client). d.vault ≡ c.vault) p _ _
      (λ e.
        if-holds (λ (d : Client). d.vault ≡ c.vault) (is_some c.vault) _ _ (λ f. refl) (λ f. refl))
      (λ e. boot_app-vault a b me c)

-- Of a start of the page, an unlock, a setup, a lock, the end of a session, a logout and a return to the
-- login, every step leaves a vault stored under its PIN, but a setup whose keys were published and a
-- logout that the server accepts or answers with 401. A change of the PIN and a recovery from a backup
-- are not among these steps.
pub Step-vault_kept :
    {c d : Client} (s : Step c d) (pin : String)
    → Spares s
    → IsSealed c
    → HasPin pin c.vault
    → HasPin pin d.vault
unfolding setup_with set_gate session_ended wipe_memory back_to_login load
Step-vault_kept (booted c t p a b me) pin ok h has = rw (boot_page-vault p a b me (load t c)) has
Step-vault_kept (unlocked c l a n entered t at) pin ok h has =
    unlock_with-HasPin l a n entered t pin c has
Step-vault_kept (set_up c entered m (published v) at) pin ok h has = absurd ok
Step-vault_kept (set_up c entered m (not_published e) at) pin ok h has = has
Step-vault_kept (locked c) pin ok h has = unfold lock_app in persist-HasPin pin c h has
Step-vault_kept (ended c) pin ok h has = has
Step-vault_kept (logged_out c r) pin ok h has = unfold logout in rw ok has
Step-vault_kept (went_back c) pin ok h has = has

lock_app-rest :
    (c : Client)
    → ((lock_app c).handoff ≡ c.handoff)
      × ((lock_app c).gate ≡ some (gate_of unlock))
      × ((lock_app c).keys ≡ none)
unfolding lock_app set_gate wipe_memory persist
lock_app-rest c = ground arith

-- The right passcode, where the saved token is exchanged.
enter-renewed :
    (t : Tokens) (token : String) (v : Stored) (c : Client)
    → c.handoff ≡ none
    → v.saved.refresh ≡ some token
    → let d = enter (some t) v c in
      (d.keys ≡ v.saved.keys)
      × (d.user_id ≡ v.saved.user_id)
      × (d.gate ≡ none)
      × (d.refresh ≡ some t.refresh)
      × (d.open_pin ≡ some v.pin)
unfolding enter resume renew start_app persist
enter-renewed t token v c no_handoff saved =
    rw (no_handoff, saved, resume, renew) (refl, refl, refl, refl, refl)

-- After `lock_app` the PIN brings the keys and the account back and shows the app with the new token, if
-- the vault was open, the session had a refresh token that can be exchanged, no tokens of a login wait,
-- and the vault is not locked.
pub unlock_with-lock_app :
    (pin token : String) (t : Tokens) (vault_lock left : ℕ) (c : Client)
    → c.open_pin ≡ some pin
    → c.refresh ≡ some token
    → c.handoff ≡ none
    → let d = unlock_with false vault_lock left pin (some t) (lock_app c) in
      (d.keys ≡ c.keys)
      × (d.user_id ≡ c.user_id)
      × (d.gate ≡ none)
      × (d.refresh ≡ some t.refresh)
      × (d.open_pin ≡ some pin)
unfolding unlock_with
unlock_with-lock_app pin token t vault_lock left c open_ has no_handoff =
    rw (lock_app-vault pin c open_, unlock_with, eq_refl pin)
      (enter-renewed t token (record { pin = pin; saved = vault_state c }) (lock_app c)
        ((lock_app-rest c).0 ∙ no_handoff) (unfold vault_state in has))

unlock_with_refused :
    (other : String) (t : Option Tokens) (left : ℕ) (c : Client) (v : Stored)
    → c.vault ≡ some v
    → other ≢ v.pin
    → unlock_with false 0 left other t c
      ≡ record c { gate = some (record (gate_of unlock) { message = wrong_passcode left }) }
unfolding unlock_with set_gate
unlock_with_refused other t left c v has ne = ground (arith, has, eq_iff other v.pin)

lock_app-open_pin : (c : Client) → (lock_app c).open_pin ≡ none
unfolding lock_app set_gate wipe_memory
lock_app-open_pin c = refl

-- A wrong one.
pub unlock_with-wrong :
    (pin other : String) (t : Option Tokens) (left : ℕ) (c : Client)
    → c.open_pin ≡ some pin
    → other ≢ pin
    → let d = unlock_with false 0 left other t (lock_app c) in
      (d.keys ≡ none)
      × (d.open_pin ≡ none)
      × (d.vault ≡ (lock_app c).vault)
      × (d.gate ≡ some (record (gate_of unlock) { message = wrong_passcode left }))
unlock_with-wrong pin other t left c open_ ne =
    rw (unlock_with_refused other t left (lock_app c) _ (lock_app-vault pin c open_) ne)
      ((lock_app-rest c).2, lock_app-open_pin c, refl, refl)
