-- ===== src/Lifecycle.antt =====
-- The life of a session in backend/static/js/app/data.js, from `boot` to `logout`, and the screen of the
-- passcode in backend/static/js/app/handlers.js. The vault is what Vault.antt promises of it: the
-- state that was saved last, under a PIN. What the server replies is an argument, and an operation runs
-- to its end before the next event.
pub mod Sealed
pub mod Kept
pub mod Entry
pub mod ChangePin
use cryptis_dchat_project.Prelude.{
  ℕ, ltb, ◌==◌, if◌then◌else◌, Bool, true, false, not, ◌&&◌, ◌||◌, Option, none, some, String,
  str_eq,
}

pub data Mode : Type 0 where
  boot busy unlock profile_setup setup setup_confirm restore reset pairing_pin : Mode

-- The texts that a gate shows for an error.
pub data Message : Type 0 where
  quiet has_vault no_match no_name bad_username destroyed : Message
  wrong_passcode : (attempts_left : ℕ) → Message
  failure : String → Message

-- `state.gate`, where a missing time is 0.
pub record Gate : Type 0 where
  pub mode : Mode
  pub first : String
  pub is_reset : Bool
  pub is_busy : Bool
  pub locked_until : ℕ
  pub message : Message

abbrev pub gate_of : Mode → Gate
gate_of m = record {
  mode = m;
  first = "";
  is_reset = false;
  is_busy = false;
  locked_until = 0;
  message = quiet;
}

pub record Tokens : Type 0 where
  pub access : String
  pub refresh : String
  pub is_new_user : Bool

-- `S.keys`, with the four keys of a device as one text.
pub record Keys : Type 0 where
  pub version : ℕ
  pub material : String

pub record Saved : Type 0 where
  pub user_id : Option String
  pub refresh : Option String
  pub keys : Option Keys

pub record Stored : Type 0 where
  pub pin : String
  pub saved : Saved

-- The page, or the address that `location.replace` goes to.
pub data Place : Type 0 where
  app login login_again : Place

-- `S` and `API.session`, `cx_login` of the session's storage, the stored vault and the PIN under which it
-- is open, and whether the socket runs.
pub record Client : Type 0 where
  pub gate : Option Gate
  pub user_id : Option String
  pub keys : Option Keys
  pub access : Option String
  pub refresh : Option String
  pub handoff : Option Tokens
  pub cx_login : Option Tokens
  pub vault : Option Stored
  pub open_pin : Option String
  pub socket : Bool
  pub place : Place

unfoldable pub vault_state : Client → Saved
vault_state c = record { user_id = c.user_id; refresh = c.refresh; keys = c.keys }

-- `persist(true)`, which does nothing while the vault is locked.
unfoldable pub persist : Client → Client
unfolding vault_state
persist c = elim c.open_pin [
  | none ↦ c
  | some pin ↦ record c { vault = some (record { pin = pin; saved = vault_state c }) }
]

unfoldable pub set_gate : Gate → Client → Client
set_gate g c = record c { gate = some g }

unfoldable pub start_app : Client → Client
start_app c = record c { gate = none; socket = true }

unfoldable pub wipe_memory : Client → Client
wipe_memory c = record c {
  socket = false;
  open_pin = none;
  keys = none;
  access = none;
  refresh = none;
}

unfoldable pub lock_app : Client → Client
unfolding persist wipe_memory set_gate
lock_app c = set_gate (gate_of unlock) (wipe_memory (persist c))

unfoldable pub session_ended : Client → Client
unfolding wipe_memory
session_ended c = record (wipe_memory c) { place = login_again }

-- The reply to `POST /api/auth/logout`.
pub data LogoutReply : Type 0 where
  accepted no_network : LogoutReply
  refused : (status : ℕ) → LogoutReply

unfoldable pub leaves : LogoutReply → Bool
leaves accepted = true
leaves no_network = false
leaves (refused status) = status == 401

unfoldable pub logout : LogoutReply → Client → Client
unfolding leaves wipe_memory
logout r c =
    if leaves r
    then record (wipe_memory c) { vault = none; cx_login = none; place = login_again }
    else c

-- The request is only tried.
unfoldable pub back_to_login : Client → Client
unfolding wipe_memory
back_to_login c = record (wipe_memory c) { handoff = none; cx_login = none; place = login_again }

-- What `/api/me` tells of the account.
pub record Me : Type 0 where
  pub id : String
  pub username : Option String
  pub key_version : Option ℕ
  pub has_backup : Bool

unfoldable pub is_some {ℓ} : {A : Type ℓ} → Option A → Bool
is_some none = false
is_some (some a) = true

-- `VAULT.exists()` and `VAULT.userId()`.
unfoldable pub is_vault_of : String → Option Stored → Bool
is_vault_of id none = false
is_vault_of id (some v) = elim v.saved.user_id [ none ↦ false | some u ↦ str_eq u id ]

-- Which screen is shown to an account that has logged in; the locks are those of the vault and of the recovery.
unfoldable pub first_gate : Bool → ℕ → ℕ → Option Stored → Me → Gate
unfolding is_vault_of is_some
first_gate is_new vault_lock recovery_lock vault me =
    if is_vault_of me.id vault
    then record (gate_of unlock) { locked_until = vault_lock }
    else if not (is_some me.key_version) && (is_new || not (is_some me.username))
    then gate_of profile_setup
    else if not (is_some me.key_version)
    then gate_of setup
    else if me.has_backup
    then record (gate_of restore) { locked_until = recovery_lock }
    else gate_of reset

unfoldable pub greet : ℕ → ℕ → Tokens → Option Me → Client → Client
unfolding first_gate set_gate
greet vault_lock recovery_lock h none c = record c { cx_login = none; place = login_again }
greet vault_lock recovery_lock h (some me) c =
    set_gate (first_gate h.is_new_user vault_lock recovery_lock c.vault me)
      (record c { user_id = some me.id })

-- `boot` of a page whose address does not ask for a pairing.
unfoldable pub boot_app : ℕ → ℕ → Option Me → Client → Client
unfolding greet set_gate is_some
boot_app vault_lock recovery_lock me c = elim c.cx_login [
  | none ↦
      if is_some c.vault
      then set_gate (record (gate_of unlock) { locked_until = vault_lock }) c
      else record c { place = login }
  | some h ↦
      greet vault_lock recovery_lock h me
        (record c { handoff = some h; access = some h.access; refresh = some h.refresh })
]

-- `boot`: an address that asks for a pairing starts one, which Pairing/Device.antt models, where there is no
-- vault.
unfoldable pub boot_page : Bool → ℕ → ℕ → Option Me → Client → Client
unfolding boot_app set_gate is_some
boot_page wants_pair vault_lock recovery_lock me c =
    if wants_pair
    then (if is_some c.vault
        then set_gate (record (gate_of unlock) { message = has_vault }) c
        else c)
    else boot_app vault_lock recovery_lock me c

-- A page that is loaded anew, after the login where that left tokens: only the storage is kept.
unfoldable pub load : Option Tokens → Client → Client
load tokens c = record c {
  gate = some (gate_of boot);
  user_id = none;
  keys = none;
  access = none;
  refresh = none;
  handoff = none;
  cx_login = elim tokens [ none ↦ c.cx_login | some t ↦ some t ];
  open_pin = none;
  socket = false;
  place = app;
}

-- `API.refresh` in `unlockWith`: the new tokens, which `onRefresh` saves, or an error.
unfoldable pub renew : Option Tokens → Client → Client
unfolding persist start_app session_ended
renew none c = session_ended c
renew (some t) c =
    start_app (persist (record c { access = some t.access; refresh = some t.refresh }))

-- The tokens of the login, if there are any, take the place of the saved one; without a token `API.refresh` throws.
unfoldable pub resume : Option Tokens → Option Tokens → Option String → Client → Client
unfolding renew persist start_app session_ended
resume (some h) renewed saved c = start_app (
    persist (record c {
      access = some h.access;
      refresh = some h.refresh;
      handoff = none;
      cx_login = none;
    }))
resume none renewed none c = session_ended (record c { refresh = none })
resume none renewed (some token) c = renew renewed (record c { refresh = some token })

-- `unlockWith` after `VAULT.unlock`.
unfoldable pub enter : Option Tokens → Stored → Client → Client
unfolding resume
enter renewed v c =
    resume c.handoff renewed v.saved.refresh
      (record c { user_id = v.saved.user_id; keys = v.saved.keys; open_pin = some v.pin })

-- `unlockWith`, with the error of `submitGate` where the vault refuses; it also refuses while it is locked.
unfoldable pub unlock_with : Bool → ℕ → ℕ → String → Option Tokens → Client → Client
unfolding enter set_gate
unlock_with is_locked vault_lock attempts_left pin renewed c =
    let refuses =
      if vault_lock == 0
      then record (gate_of unlock) { message = wrong_passcode attempts_left }
      else record (gate_of unlock) { locked_until = vault_lock } in
    elim c.vault [
      | none ↦ set_gate refuses c
      | some v ↦ if str_eq pin v.pin && not is_locked then enter renewed v c else set_gate refuses c
    ]

-- The reply to `POST /api/keys`, or the error of the request.
pub data KeysReply : Type 0 where
  published : (version : ℕ) → KeysReply
  not_published : (error : String) → KeysReply

-- `setupWith` with the keys that were generated, in `submitGate`.
unfoldable pub setup_with : String → String → KeysReply → Client → Client
unfolding start_app vault_state set_gate
setup_with pin material (not_published e) c =
    set_gate (record (gate_of setup) { message = failure e }) c
setup_with pin material (published version) c =
    let fresh = record c { keys = some (record { version = version; material = material }) } in
    start_app (record fresh {
      vault = some (record { pin = pin; saved = vault_state fresh });
      open_pin = some pin;
      handoff = none;
      cx_login = none;
    })
