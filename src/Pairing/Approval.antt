-- ===== src/Pairing/Approval.antt =====
-- The device that approves a pairing: `inspectPairing` and `answerPairing` of backend/static/js/app/data.js, with the
-- handlers of app/handlers.js that call them. Each await is a step.
pub mod Sealed
use cryptis_dchat_project.Prelude.{
  ℕ, zero, suc, ◌+◌, ◌*◌, leb, if◌then◌else◌, Bool, true, false, not, ◌&&◌, Option, none, some,
  List, [], ◌∷◌, ◌++◌, length,
}
use cryptis_dchat_project.Crypto.Merkle.{text_eq}
use cryptis_dchat_project.Pairing.Envelope.{Text, Scan, State, PinVerifier, Envelope, Suite, seal}

-- What an answer waits for: the vault, the sealing of a state, or the server.
pub data Stage : Type 0 where
  unlocking : Stage
  sealing : State → Stage
  posting : (allow : Bool) → Stage

-- `pairingApproval` as an object: answers that wait keep theirs when another code is inspected. `posted` has the
-- envelopes that were sent to approve it.
pub record Approval : Type 0 where
  pub scan : Scan
  pub operation_id : Text
  pub expires_at : ℕ
  pub busy : Bool
  pub envelope : Option Envelope
  pub runs : List Stage
  pub posted : List Envelope

pub data Answer : Type 0 where
  waits_scan waits_answer approved rejected : Answer

-- `current` is the object that `pairingApproval` names, `session` what `vaultState` gives while the vault is open.
pub record Approver : Type 0 where
  pub user_id : Text
  pub session : Option State
  pub gate : Bool
  pub on_view : Bool
  pub current : Option ℕ
  pub shown : Answer
  pub approvals : List Approval

abbrev pub first_approver : Text → Approver
first_approver user = record {
  user_id = user;
  session = none;
  gate = true;
  on_view = false;
  current = none;
  shown = waits_scan;
  approvals = [];
}

-- What an await gives; for the sealing, what ECIES drew and the verifier of the passcode.
pub data Reply : Type 0 where
  failed posted_ok : Reply
  opened : State → Reply
  sealed : (drawn : Text) → PinVerifier → Reply

unfoldable pub stage_at : ℕ → List Stage → Option Stage
stage_at n [] = none
stage_at zero (r ∷ rs) = some r
stage_at (suc n) (r ∷ rs) = stage_at n rs

unfoldable pub without : ℕ → List Stage → List Stage
without n [] = []
without zero (r ∷ rs) = rs
without (suc n) (r ∷ rs) = r ∷ without n rs

-- An answer goes on at another stage, with the runs that are left.
unfoldable pub goes_on : Stage → List Stage → Approval → Approval
goes_on r rest a = record a { busy = true; runs = r ∷ rest }

-- The `finally` block.
unfoldable pub ends : List Stage → Approval → Approval
ends rest a = record a { busy = false; runs = rest }

unfoldable pub post : Envelope → List Stage → Approval → Approval
unfolding goes_on
post e rest a = record (goes_on (posting true) rest a) { envelope = some e; posted = e ∷ a.posted }

-- The state is of the account, and a retry sends the envelope that was sealed at first.
unfoldable pub use_state : Text → State → List Stage → Approval → Approval
unfolding goes_on ends post
use_state user st rest a =
    if text_eq st.user_id user
    then elim a.envelope [ none ↦ goes_on (sealing st) rest a | some e ↦ post e rest a ]
    else ends rest a

-- `answerPairing` up to its first await; `now` is in milliseconds.
unfoldable pub answer : Text → Option State → Bool → ℕ → Approval → Approval
unfolding goes_on use_state
answer user session allow now a =
    if a.busy
    then a
    else if leb (a.expires_at * 1000) now
    then a
    else if allow
    then elim session [ none ↦ goes_on unlocking a.runs a | some st ↦ use_state user st a.runs a ]
    else goes_on (posting false) a.runs a

module _ (w : Suite) where
  -- The rest of an answer, from an await on.
  unfoldable pub resume_at : Text → Stage → Reply → List Stage → Approval → Approval
  unfolding ends use_state post
  resume_at user unlocking (opened st) rest a = use_state user st rest a
  resume_at user (sealing st) (sealed drawn verifier) rest a =
      post (seal w drawn a.scan st a.operation_id verifier) rest a
  resume_at user r reply rest a = ends rest a

  unfoldable pub resume : Text → ℕ → Reply → Approval → Approval
  unfolding resume_at stage_at without
  resume user k reply a = elim (stage_at k a.runs) [
    | none ↦ a
    | some r ↦ resume_at user r reply (without k a.runs) a
  ]

-- What the screen says after an await, if the answer was taken.
unfoldable pub is_taken : Option Stage → Reply → Option Answer
is_taken (some (posting allow)) posted_ok = some (if allow then approved else rejected)
is_taken r reply = none

unfoldable pub change_at : ℕ → (Approval → Approval) → List Approval → List Approval
change_at n f [] = []
change_at zero f (a ∷ rest) = f a ∷ rest
change_at (suc n) f (a ∷ rest) = a ∷ change_at n f rest

unfoldable pub stage_of : ℕ → ℕ → List Approval → Option Stage
unfolding stage_at
stage_of n k [] = none
stage_of zero k (a ∷ rest) = stage_at k a.runs
stage_of (suc n) k (a ∷ rest) = stage_of n k rest

-- `inspectPairing` after the server's answer.
unfoldable pub inspected : Scan → Text → ℕ → Approver → Approver
inspected scan operation expires d =
    if d.on_view && not d.gate
    then record d {
      approvals =
          d.approvals
          ++ (record {
            scan = scan;
            operation_id = operation;
            expires_at = expires;
            busy = false;
            envelope = none;
            runs = [];
            posted = [];
          }
              ∷ []);
      current = some (length d.approvals);
      shown = waits_answer;
    }
    else d

pub data Event : Type 0 where
  view_opened view_closed locked : Event
  unlocked : State → Event
  code_inspected : Scan → (operation : Text) → (expires : ℕ) → Event
  answered : (allow : Bool) (now : ℕ) → Event
  resumed : (approval run : ℕ) → Reply → Event

module _ (w : Suite) where
  unfoldable pub resumes : ℕ → ℕ → Reply → Approver → Approver
  unfolding resume is_taken change_at stage_of
  resumes n k reply d =
      let after = record d { approvals = change_at n (resume w d.user_id k reply) d.approvals } in
      elim (is_taken (stage_of n k d.approvals) reply) [
        | none ↦ after
        | some shown ↦ record after { current = none; shown = shown }
      ]

  unfoldable pub on_event : Event → Approver → Approver
  unfolding inspected answer change_at resumes
  on_event view_opened d = record d { on_view = true; current = none; shown = waits_scan }
  on_event view_closed d = record d { on_view = false; current = none; shown = waits_scan }
  on_event locked d = record d { session = none; gate = true; on_view = false; current = none }
  on_event (unlocked st) d = record d { session = some st; gate = false }
  on_event (code_inspected scan operation expires) d = inspected scan operation expires d
  on_event (answered allow now) d = elim d.current [
    | none ↦ d
    | some n ↦ record d {
      approvals = change_at n (answer d.user_id d.session allow now) d.approvals;
    }
  ]
  on_event (resumed n k reply) d = resumes n k reply d

  unfoldable pub after_events : List Event → Approver → Approver
  unfolding on_event
  after_events [] d = d
  after_events (e ∷ rest) d = after_events rest (on_event e d)
