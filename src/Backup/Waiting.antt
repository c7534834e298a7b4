-- ===== src/Backup/Waiting.antt =====
-- The wait for the realms: the 90 polls of `restoreWith` in backend/static/js/app/data.js.
use cryptis_dchat_project.Prelude.{
  ℕ, zero, suc, ◌≡◌, ◌≢◌, refl, ltb, if◌then◌else◌, true, false, List, ◌∷◌, ◌++◌, replicate, arith,
}
use cryptis_dchat_project.Backup.{
  Bytes, Suite, RecoveryReply, waiting, wrong_pin, locked, destroyed, unavailable, done, poll,
  recovery_lock_until, take_result, restore_with,
}

pub recovery_lock_until-zero : (now : ℕ) → recovery_lock_until now 0 ≡ 0
unfolding recovery_lock_until
recovery_lock_until-zero now = ground arith

ltb-zero : (n : ℕ) → ltb n 0 ≡ false
ltb-zero n = ground arith

zero-ltb : (n : ℕ) → ltb 0 (suc n) ≡ true
zero-ltb n = ground arith

ltb-suc : (n left : ℕ) → ltb (suc n) (suc left) ≡ ltb n left
ltb-suc n left = ground arith

poll-answer :
    (left : ℕ) (answer : RecoveryReply) (more : List RecoveryReply)
    → answer ≢ waiting
    → poll left answer more ≡ answer
unfolding poll
poll-answer zero answer more ne = refl
poll-answer (suc left) waiting more ne = absurd (ne refl)
poll-answer (suc left) (wrong_pin n) more ne = refl
poll-answer (suc left) (locked t) more ne = refl
poll-answer (suc left) destroyed more ne = refl
poll-answer (suc left) unavailable more ne = refl
poll-answer (suc left) (done shares) more ne = refl

pub poll-pending :
    (left n : ℕ) (answer : RecoveryReply) (more : List RecoveryReply)
    → answer ≢ waiting
    → poll left waiting (replicate n waiting ++ (answer ∷ more))
      ≡ (if ltb n left then answer else waiting)
unfolding poll
poll-pending zero n answer more ne = rw (ltb-zero n)
poll-pending (suc left) zero answer more ne = rw (zero-ltb left, poll-answer left answer more ne)
poll-pending (suc left) (suc n) answer more ne =
    rw (ltb-suc n left, poll-pending left n answer more ne)

-- A recovery whose start and further `n` polls are pending takes the answer that comes after them, if
-- `n` is below 90, and otherwise ends as one that still waits; where the browser remembers no lock.
pub restore_with-pending :
    (w : Suite) (now n : ℕ) (private ciphertext : Bytes) (answer : RecoveryReply)
    (more : List RecoveryReply)
    → answer ≢ waiting
    → restore_with w now 0 private ciphertext waiting (replicate n waiting ++ (answer ∷ more))
      ≡ take_result w private ciphertext (if ltb n 90 then answer else waiting)
unfolding restore_with
restore_with-pending w now n private ciphertext answer more ne =
    rw (recovery_lock_until-zero now, poll-pending 90 n answer more ne)
