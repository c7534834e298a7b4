-- ===== src/Examples/Lifecycle.antt =====
-- The theorems on the life of a session at concrete clients.
use cryptis_dchat_project.Prelude.{
  ℕ, ◌≡◌, refl, true, false, none, some, List, [], ◌∷◌, String, arith,
}
use cryptis_dchat_project.Lifecycle.{
  setup, quiet, gate_of, Tokens, Keys, app, Client, lock_app, session_ended, unlock_with, set_gate,
  wipe_memory,
}
use cryptis_dchat_project.Lifecycle.Sealed.{
  IsSealed, unlocked, locked, ended, here, next, Reach-IsSealed,
}
use cryptis_dchat_project.Lifecycle.Kept.{HasPin, Step-vault_kept, unlock_with-lock_app}
use cryptis_dchat_project.Lifecycle.Entry.{setting_up, submit_gate, after, submit_gate-twice}
use cryptis_dchat_project.Lifecycle.ChangePin.{current, Change, wrong, changed, Entered}

abbrev keys : Keys
keys = record { version = 2; material = "k" }

-- The app is open.
abbrev at_work : Client
at_work = record {
  gate = none;
  user_id = some "u";
  keys = some keys;
  access = some "a1";
  refresh = some "r1";
  handoff = none;
  cx_login = none;
  vault = some (record {
    pin = "1234";
    saved = record { user_id = some "u"; refresh = some "r0"; keys = some keys };
  });
  open_pin = some "1234";
  socket = true;
  place = app;
}

at_work-IsSealed : IsSealed at_work
at_work-IsSealed = record {
  shut = λ e. absurd (cc e);
  stored = λ pin e. (_, refl, ground (arith, e));
  shown = λ e f. ("1234", refl);
  gone = λ e. absurd (cc e);
}

abbrev renewed : Tokens
renewed = record { access = "a2"; refresh = "r2"; is_new_user = false }

lock_app-place : (lock_app at_work).place ≡ app
unfolding lock_app set_gate wipe_memory
lock_app-place = refl

Reach-IsSealed_example : IsSealed (unlock_with false 0 9 "1234" (some renewed) (lock_app at_work))
Reach-IsSealed_example =
    Reach-IsSealed
      (next (next here (locked at_work))
        (unlocked (lock_app at_work) false 0 9 "1234" (some renewed) lock_app-place))
      at_work-IsSealed

Step-vault_kept_example : HasPin "1234" (session_ended at_work).vault
Step-vault_kept_example = Step-vault_kept (ended at_work) "1234" tt at_work-IsSealed refl

unlock_with-lock_app_example :
    let d = unlock_with false 0 9 "1234" (some renewed) (lock_app at_work) in
    (d.keys ≡ some keys)
    × (d.user_id ≡ some "u")
    × (d.gate ≡ none)
    × (d.refresh ≡ some "r2")
    × (d.open_pin ≡ some "1234")
unlock_with-lock_app_example = unlock_with-lock_app "1234" "r1" renewed 0 9 at_work refl refl refl

two_pins : (submit_gate 5 "1234" (after (gate_of setup) ((4, "1234") ∷ []))).1 ≡ setting_up "1234"
unfolding submit_gate after
two_pins = refl

submit_gate-twice_example :
    (◌≡◌ {A = String} "1234" "1234")
    × ((time : ℕ) × (earlier : List (ℕ × String)) × (◌≡◌ {A = List (ℕ × String)}
          ((4, "1234") ∷ [])
          ((time, "1234") ∷ earlier)))
submit_gate-twice_example =
    submit_gate-twice (gate_of setup) ((4, "1234") ∷ []) 5 "1234" "1234" (λ e. cc e) two_pins

abbrev change : Change
change = record {
  pc = record { step = current; first = ""; is_busy = false; locked_until = 0; message = quiet };
  is_open = true;
  vault_pin = "1234";
  backup_pin = "1234";
}

abbrev guesses : List Entered
guesses =
    record { now = 1; value = "0000"; vault_reply = wrong 9 0; change_reply = changed }
    ∷ record { now = 2; value = "1111"; vault_reply = wrong 8 0; change_reply = changed }
    ∷ []
