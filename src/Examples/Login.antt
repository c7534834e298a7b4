-- ===== src/Examples/Login.antt =====
-- The theorems on the page of signing in at concrete events, and the run in which two submits send the same proof.
use cryptis_dchat_project.Prelude.{
  ℕ, ◌≤◌, ◌≡◌, refl, true, false, List, [], ◌∷◌, All, replicate, map,
}
use cryptis_dchat_project.Login.{
  Attempt, Event, first_page, after_events, submitted, challenged, for_wallet, loaded,
  status_changed, with_proof, timed_out, on_event, waiting, reset, fail, with_attempt, step_attempt,
  show_outcome, on_submit, on_challenge, on_loaded, on_status, send_proof, is_at, in_phase,
  is_subscribed,
}
use cryptis_dchat_project.Login.Once.{sent_at, after_events-once}

-- The first submit's time ends, the form is submitted again, and then a wallet connects.
abbrev late_wallet : List Event
late_wallet =
    submitted
    ∷ challenged 0 for_wallet
    ∷ loaded 0 true
    ∷ timed_out
    ∷ submitted
    ∷ challenged 1 for_wallet
    ∷ loaded 1 true
    ∷ status_changed 0 with_proof
    ∷ status_changed 1 with_proof
    ∷ []

-- Each of the two submits sends the wallet's proof.
late_wallet-sent :
    map (λ (a : Attempt). a.verifies) (after_events late_wallet (first_page false)).attempts
    ≡ 1 ∷ 1 ∷ []
unfolding after_events first_page on_event waiting reset fail with_attempt step_attempt show_outcome
    on_submit on_challenge on_loaded on_status send_proof is_at in_phase is_subscribed
late_wallet-sent = refl

after_events-once_example :
    All
      (λ (a : Attempt). a.verifies ≤ sent_at a.phase)
      (after_events late_wallet (first_page false)).attempts
after_events-once_example = after_events-once false late_wallet

abbrev one_hash : List ℕ
one_hash = replicate 32 7
