-- ===== src/Lifecycle/ChangePin.antt =====
-- The screen that changes the passcode: `goPasscode` and `submitPasscode` of
-- backend/static/js/app/handlers.js.
use cryptis_dchat_project.Prelude.{
  ℕ, ltb, ◌==◌, if◌then◌else◌, Bool, true, false, String, str_eq, List, [], ◌∷◌,
}
use cryptis_dchat_project.Lifecycle.{Message, quiet, no_match, wrong_passcode, failure}

-- `state.pc` of the screen that changes the passcode.
pub data PasscodeStep : Type 0 where
  current new_one confirm : PasscodeStep

pub record Passcode : Type 0 where
  pub step : PasscodeStep
  pub first : String
  pub is_busy : Bool
  pub locked_until : ℕ
  pub message : Message

-- The screen, whether it is shown, the PIN of the vault and the PIN of the backup on the realms.
pub record Change : Type 0 where
  pub pc : Passcode
  pub is_open : Bool
  pub vault_pin : String
  pub backup_pin : String

-- What `VAULT.unlock`, or `VAULT.changePin` and `backupKeys`, come to.
pub data VaultReply : Type 0 where
  right : VaultReply
  wrong : (attempts_left lock : ℕ) → VaultReply

pub data ChangeReply : Type 0 where
  changed : ChangeReply
  vault_error backup_error : (error : String) → ChangeReply

-- `H.goPasscode`
unfoldable pub go_passcode : ℕ → Change → Change
go_passcode vault_lock c = record c {
  is_open = true;
  pc = record {
    step = current;
    first = "";
    is_busy = false;
    locked_until = vault_lock;
    message = quiet;
  };
}

unfoldable pub check_current : VaultReply → Passcode → Passcode
check_current right pc = record pc { step = new_one; is_busy = false; message = quiet }
check_current (wrong left lock) pc =
    if lock == 0
    then record pc { is_busy = false; message = wrong_passcode left }
    else record pc { is_busy = false; locked_until = lock; message = quiet }

-- `backupKeys` runs after the vault was changed.
unfoldable pub change_to : String → ChangeReply → Change → Change
change_to value changed c = record c { is_open = false; vault_pin = value; backup_pin = value }
change_to value (vault_error e) c = record c {
  pc = record c.pc { step = new_one; is_busy = false; message = failure e };
}
change_to value (backup_error e) c = record c {
  vault_pin = value;
  pc = record c.pc { step = new_one; is_busy = false; message = failure e };
}

unfoldable pub submit_step : PasscodeStep → String → VaultReply → ChangeReply → Change → Change
unfolding check_current change_to
submit_step current value v r c = record c { pc = check_current v c.pc }
submit_step new_one value v r c = record c { pc = record c.pc { step = confirm; first = value } }
submit_step confirm value v r c =
    if str_eq value c.pc.first
    then change_to value r c
    else record c { pc = record c.pc { step = new_one; first = ""; message = no_match } }

unfoldable pub submit_passcode : ℕ → String → VaultReply → ChangeReply → Change → Change
unfolding submit_step
submit_passcode now value v r c =
    if ltb now c.pc.locked_until then c else submit_step c.pc.step value v r c

-- One passcode that was entered: the time, the passcode and the replies.
pub record Entered : Type 0 where
  pub now : ℕ
  pub value : String
  pub vault_reply : VaultReply
  pub change_reply : ChangeReply

unfoldable pub submit_all : List Entered → Change → Change
unfolding submit_passcode
submit_all [] c = c
submit_all (e ∷ rest) c =
    submit_all rest (submit_passcode e.now e.value e.vault_reply e.change_reply c)

abbrev pub IsWrong : VaultReply → Type 0
IsWrong right = ⊥
IsWrong (wrong left lock) = Unit
