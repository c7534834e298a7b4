-- ===== src/Lifecycle/Sealed.antt =====
-- The keys in memory, and the vault: backend/static/js/app/data.js over every sequence of events.
use mathlib.Core.Option.{some-injective}
use cryptis_dchat_project.Prelude.{
  ℕ, ◌≡◌, refl, sym, ◌∙◌, ◌≢◌, Bool, not, ◌&&◌, Option, none, some, String, str_eq, arith, if-holds,
  Option-cases, inl, inr,
}
use cryptis_dchat_project.Lifecycle.{
  Gate, gate_of, unlock, Tokens, Stored, Place, app, login_again, Client, persist, vault_state,
  set_gate, start_app, wipe_memory, lock_app, session_ended, LogoutReply, leaves, logout,
  back_to_login, Me, load, greet, boot_app, boot_page, is_some, renew, resume, enter, unlock_with,
  KeysReply, published, not_published, setup_with,
}

-- Without an open vault there are no keys in memory; an open vault is the stored one, and the app is shown only over it.
pub record IsSealed (c : Client) : Type 0 where
  pub shut : c.open_pin ≡ none → c.keys ≡ none
  pub stored :
      (pin : String) → c.open_pin ≡ some pin → (v : Stored) × (c.vault ≡ some v) × (v.pin ≡ pin)
  pub shown : c.gate ≡ none → c.place ≡ app → (pin : String) × (c.open_pin ≡ some pin)
  pub gone : c.place ≡ login_again → c.open_pin ≡ none

set_gate-IsSealed : (g : Gate) (c : Client) → IsSealed c → IsSealed (set_gate g c)
unfolding set_gate
set_gate-IsSealed g c h = record {
  shut = h.shut;
  stored = h.stored;
  shown = λ e f. absurd (cc e);
  gone = h.gone;
}

wipe_memory-IsSealed :
    (c : Client) (p : Place)
    → IsSealed c
    → (g : Gate) → IsSealed (set_gate g (record (wipe_memory c) { place = p }))
unfolding wipe_memory set_gate
wipe_memory-IsSealed c p h g = record {
  shut = λ e. refl;
  stored = λ pin e. absurd (cc e);
  shown = λ e f. absurd (cc e);
  gone = λ e. refl;
}

pub persist_open :
    (pin : String) (c : Client)
    → c.open_pin ≡ some pin
    → persist c ≡ record c { vault = some (record { pin = pin; saved = vault_state c }) }
unfolding persist
persist_open pin c e = ground (arith, e)

pub persist_shut : (c : Client) → c.open_pin ≡ none → persist c ≡ c
unfolding persist
persist_shut c e = ground (arith, e)

persist-IsSealed : (c : Client) → IsSealed c → IsSealed (persist c)
persist-IsSealed c h = elim (Option-cases c.open_pin) [
  | inl shut ↦ rw (persist_shut c shut) h
  | inr (pin, open_) ↦ rw (persist_open pin c open_) (record {
    shut = h.shut;
    stored = λ p e.
        (record { pin = pin; saved = vault_state c }, refl, some-injective _ _ (sym open_ ∙ e));
    shown = h.shown;
    gone = h.gone;
  })
]

lock_app-IsSealed : (c : Client) → IsSealed c → IsSealed (lock_app c)
unfolding lock_app
lock_app-IsSealed c h =
    wipe_memory-IsSealed (persist c) (persist c).place (persist-IsSealed c h) (gate_of unlock)

-- What is left behind is sealed, whatever else changes.
left-IsSealed :
    (c : Client) (g : Option Gate) (v : Option Stored) (h : Option Tokens) (l : Option Tokens)
    → IsSealed (record (wipe_memory c) {
      gate = g;
      vault = v;
      handoff = h;
      cx_login = l;
      place = login_again;
    })
unfolding wipe_memory
left-IsSealed c g v h l = record {
  shut = λ e. refl;
  stored = λ pin e. absurd (cc e);
  shown = λ e f. absurd (cc f);
  gone = λ e. refl;
}

session_ended-IsSealed : (c : Client) → IsSealed (session_ended c)
unfolding session_ended wipe_memory
session_ended-IsSealed c = left-IsSealed c c.gate c.vault c.handoff c.cx_login

logout-IsSealed : (r : LogoutReply) (c : Client) → IsSealed c → IsSealed (logout r c)
unfolding logout wipe_memory
logout-IsSealed r c h =
    if-holds IsSealed (leaves r) _ _ (λ e. left-IsSealed c c.gate none c.handoff none) (λ e. h)

back_to_login-IsSealed : (c : Client) → IsSealed (back_to_login c)
unfolding back_to_login wipe_memory
back_to_login-IsSealed c = left-IsSealed c c.gate c.vault none none

-- An open vault whose state is saved before the app is shown.
saved-IsSealed :
    (c : Client) (pin : String)
    → c.place ≡ app
    → c.open_pin ≡ some pin
    → IsSealed (start_app (persist c))
unfolding start_app
saved-IsSealed c pin at open_ = rw (persist_open pin c open_) (record {
  shut = λ e. absurd (cc (e, open_));
  stored = λ p e. (_, refl, some-injective _ _ (sym open_ ∙ e));
  shown = λ e f. (pin, open_);
  gone = λ e. absurd (cc (at, e));
})

renew-IsSealed :
    (t : Option Tokens) (c : Client) (pin : String)
    → c.place ≡ app
    → c.open_pin ≡ some pin
    → IsSealed (renew t c)
unfolding renew
renew-IsSealed none c pin at open_ = session_ended-IsSealed c
renew-IsSealed (some t) c pin at open_ =
    saved-IsSealed (record c { access = some t.access; refresh = some t.refresh }) pin at open_

resume-IsSealed :
    (h renewed : Option Tokens) (token : Option String) (c : Client) (pin : String)
    → c.place ≡ app
    → c.open_pin ≡ some pin
    → IsSealed (resume h renewed token c)
unfolding resume
resume-IsSealed (some h) renewed token c pin at open_ =
    saved-IsSealed
      (record c {
        access = some h.access;
        refresh = some h.refresh;
        handoff = none;
        cx_login = none;
      })
      pin at open_
resume-IsSealed none renewed none c pin at open_ =
    session_ended-IsSealed (record c { refresh = none })
resume-IsSealed none renewed (some token) c pin at open_ =
    renew-IsSealed renewed (record c { refresh = some token }) pin at open_

enter-IsSealed :
    (renewed : Option Tokens) (v : Stored) (c : Client)
    → c.place ≡ app
    → IsSealed (enter renewed v c)
unfolding enter
enter-IsSealed renewed v c at = resume-IsSealed c.handoff renewed v.saved.refresh _ v.pin at refl

unlock_with-IsSealed :
    (is_locked : Bool) (vault_lock left : ℕ) (pin : String) (renewed : Option Tokens) (c : Client)
    → c.place ≡ app
    → IsSealed c
    → IsSealed (unlock_with is_locked vault_lock left pin renewed c)
unfolding unlock_with set_gate
unlock_with-IsSealed is_locked vault_lock left pin renewed c at h = elim (Option-cases c.vault) [
  | inl gone ↦ rw (unlock_with, gone) (set_gate-IsSealed _ c h)
  | inr (v, has) ↦
      rw (unlock_with, has)
        (if-holds IsSealed (str_eq pin v.pin && not is_locked) _ _
          (λ e. enter-IsSealed renewed v c at) (λ e. set_gate-IsSealed _ c h))
]

greet-IsSealed :
    (a b : ℕ) (t : Tokens) (me : Option Me) (c : Client)
    → c.open_pin ≡ none
    → IsSealed c
    → IsSealed (greet a b t me c)
unfolding greet
greet-IsSealed a b t none c none_open h = record {
  shut = h.shut;
  stored = h.stored;
  shown = λ e f. absurd (cc f);
  gone = λ e. none_open;
}
greet-IsSealed a b t (some me) c none_open h =
    set_gate-IsSealed _ (record c { user_id = some me.id })
      (record { shut = h.shut; stored = h.stored; shown = h.shown; gone = h.gone })

load-IsSealed : (t : Option Tokens) (c : Client) → IsSealed (load t c)
unfolding load
load-IsSealed t c = record {
  shut = λ e. refl;
  stored = λ pin e. absurd (cc e);
  shown = λ e f. absurd (cc e);
  gone = λ e. refl;
}

boot_app-IsSealed :
    (a b : ℕ) (me : Option Me) (c : Client)
    → c.open_pin ≡ none
    → c.gate ≢ none
    → IsSealed c
    → IsSealed (boot_app a b me c)
unfolding boot_app
boot_app-IsSealed a b me c none_open gated h = elim (Option-cases c.cx_login) [
  | inl gone ↦
      rw (boot_app, gone)
        (if-holds IsSealed (is_some c.vault) _ _ (λ e. set_gate-IsSealed _ c h)
          (λ e. record {
            shut = h.shut;
            stored = h.stored;
            shown = λ e f. absurd (gated e);
            gone = λ e. absurd (cc e);
          }))
  | inr (t, has) ↦
      rw (boot_app, has)
        (greet-IsSealed a b t me _ none_open
          (record { shut = h.shut; stored = h.stored; shown = h.shown; gone = h.gone }))
]

setup_with-IsSealed :
    (pin material : String) (r : KeysReply) (c : Client)
    → c.place ≡ app
    → IsSealed c
    → IsSealed (setup_with pin material r c)
unfolding setup_with start_app
setup_with-IsSealed pin material (not_published e) c at h = set_gate-IsSealed _ c h
setup_with-IsSealed pin material (published v) c at h = record {
  shut = λ e. absurd (cc e);
  stored = λ p e. (_, refl, ground (arith, e));
  shown = λ e f. (pin, refl);
  gone = λ e. absurd (cc (at, e));
}

boot_page-IsSealed :
    (p : Bool) (a b : ℕ) (me : Option Me) (c : Client)
    → c.open_pin ≡ none
    → c.gate ≢ none
    → IsSealed c
    → IsSealed (boot_page p a b me c)
unfolding boot_page
boot_page-IsSealed p a b me c none_open gated h =
    if-holds IsSealed p _ _
      (λ e. if-holds IsSealed (is_some c.vault) _ _ (λ f. set_gate-IsSealed _ c h) (λ f. h))
      (λ e. boot_app-IsSealed a b me c none_open gated h)

-- The events of a page: it is loaded and boots, a passcode is entered, and the user or the server ends the session.
pub data Step : Client → Client → Type 0 where
  booted :
      (c : Client) (t : Option Tokens) (wants_pair : Bool) (vault_lock recovery_lock : ℕ)
      (me : Option Me)
      → Step c (boot_page wants_pair vault_lock recovery_lock me (load t c))
  unlocked :
      (c : Client) (is_locked : Bool) (vault_lock left : ℕ) (pin : String) (renewed : Option Tokens)
      → c.place ≡ app
      → Step c (unlock_with is_locked vault_lock left pin renewed c)
  set_up :
      (c : Client) (pin material : String) (r : KeysReply)
      → c.place ≡ app
      → Step c (setup_with pin material r c)
  locked : (c : Client) → Step c (lock_app c)
  ended : (c : Client) → Step c (session_ended c)
  logged_out : (c : Client) (r : LogoutReply) → Step c (logout r c)
  went_back : (c : Client) → Step c (back_to_login c)

pub data Reach (start : Client) : Client → Type 0 where
  here : Reach start start
  next : {c d : Client} → Reach start c → Step c d → Reach start d

Step-IsSealed : {c d : Client} → Step c d → IsSealed c → IsSealed d
unfolding load
Step-IsSealed (booted c t p a b me) h =
    boot_page-IsSealed p a b me (load t c) refl (λ e. absurd (cc e)) (load-IsSealed t c)
Step-IsSealed (unlocked c l a n pin t at) h = unlock_with-IsSealed l a n pin t c at h
Step-IsSealed (set_up c pin m r at) h = setup_with-IsSealed pin m r c at h
Step-IsSealed (locked c) h = lock_app-IsSealed c h
Step-IsSealed (ended c) h = session_ended-IsSealed c
Step-IsSealed (logged_out c r) h = logout-IsSealed r c h
Step-IsSealed (went_back c) h = back_to_login-IsSealed c

-- Whatever the sequence of loads, passcodes, setups, locks and ends of the session: while the vault is
-- not open there are no keys in memory, an open vault is the stored one under its PIN, the app is only
-- shown over an open vault, and a page that goes back to the login has closed it; if it was so at first.
pub Reach-IsSealed : {c d : Client} → Reach c d → IsSealed c → IsSealed d
Reach-IsSealed here h = h
Reach-IsSealed (next r s) h = Step-IsSealed s (Reach-IsSealed r h)
