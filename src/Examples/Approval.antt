-- ===== src/Examples/Approval.antt =====
-- The theorem on approvals at a concrete run, and a run in which an answer hides a code that was scanned after it.
use cryptis_dchat_project.Prelude.{◌≡◌, refl, true, false, none, some, List, [], ◌∷◌, All}
use cryptis_dchat_project.Pairing.Envelope.{Envelope}
use cryptis_dchat_project.Pairing.Approval.{
  Approval, Event, view_opened, unlocked, code_inspected, answered, resumed, failed, posted_ok,
  sealed, first_approver, after_events, on_event, inspected, answer, resumes, resume, resume_at,
  is_taken, stage_of, stage_at, without, change_at, use_state, goes_on, ends, post,
}
use cryptis_dchat_project.Pairing.Approval.Sealed.{IsSealedFor, after_events-sealed}
use cryptis_dchat_project.Examples.Pairing.{tagging, id, state, verifier, scan}

-- The first post fails, and the answer is given again.
abbrev retried : List Event
retried =
    unlocked state
    ∷ view_opened
    ∷ code_inspected scan id 100
    ∷ answered true 5
    ∷ resumed 0 0 (sealed [] verifier)
    ∷ resumed 0 0 failed
    ∷ answered true 6
    ∷ []

after_events-sealed_example :
    All
      (λ (a : Approval).
        All (λ (e : Envelope). (a.envelope ≡ some e) × IsSealedFor tagging id a e) a.posted)
      (after_events tagging retried (first_approver id)).approvals
after_events-sealed_example = after_events-sealed tagging id retried

-- The screen is opened again while a post waits, and another code is scanned.
abbrev scanned_again : List Event
scanned_again =
    unlocked state
    ∷ view_opened
    ∷ code_inspected scan id 100
    ∷ answered false 5
    ∷ view_opened
    ∷ code_inspected scan id 100
    ∷ resumed 0 0 posted_ok
    ∷ []

-- The second code is no longer the one that an answer is for.
scanned_again-current : (after_events tagging scanned_again (first_approver id)).current ≡ none
unfolding after_events on_event inspected answer resumes resume resume_at is_taken stage_of stage_at
    without change_at use_state goes_on ends post
scanned_again-current = refl
