-- ===== src/Examples/Outbox.antt =====
-- The theorem on the messages that a chat sends at a concrete run, in which the page is locked while one flies.
use cryptis_dchat_project.Prelude.{◌≡◌, refl, true, false, List, [], ◌∷◌}
use cryptis_dchat_project.Messages.Outbox.{
  marked, posted, dropped, first_outbox, Event, enqueued, ended, gone, after_events, on_event,
  enqueue, job_ended, advance, drop_all,
}
use cryptis_dchat_project.Messages.Outbox.InOrder.{IsIdle, jobs_of, given, after_events-in_order}

abbrev locked_between : List Event
locked_between =
    enqueued (1 ∷ 2 ∷ 3 ∷ []) ∷ enqueued (4 ∷ []) ∷ ended false ∷ gone ∷ ended true ∷ []

after_events-in_order_example :
    (jobs_of (after_events locked_between first_outbox) ≡ 1 ∷ 2 ∷ 3 ∷ 4 ∷ [])
    × IsIdle (after_events locked_between first_outbox)
unfolding given
after_events-in_order_example = after_events-in_order locked_between

-- The jobs after the one that flew are given up.
locked_between-done :
    (after_events locked_between first_outbox).done
    ≡ (1, marked) ∷ (2, posted) ∷ (3, dropped) ∷ (4, dropped) ∷ []
unfolding after_events on_event enqueue job_ended advance drop_all
locked_between-done = refl
