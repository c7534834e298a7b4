-- ===== src/Login/Waiting.antt =====
-- The button and the timers of the page of signing in: backend/static/js/login.js.
use cryptis_dchat_project.Prelude.{ℕ, ◌≡◌, refl, Bool, false, not, ◌&&◌, ◌||◌, List, [], ◌∷◌, arith}
use cryptis_dchat_project.Login.{
  Page, Attempt, Outcome, goes_on, fails, signed_in, first_page, waiting, reset, fail, show_outcome,
  with_attempt, step_attempt, on_submit, on_event, after_events, Event, submitted, pair_clicked,
  modal_failed, timed_out, error_timed_out, challenged, loaded, status_changed, status_failed,
  modal_changed, verified, vault_found,
}

-- The timer of the button runs while it waits, and the timer of an error while it is shown, but for the error of an
-- insecure page.
abbrev pub IsTimed : Page → Type 0
IsTimed p = (p.waits ≡ p.timer) × ((p.error && not (p.insecure || p.error_timer)) ≡ false)

show_outcome-IsTimed : (o : Outcome) (p : Page) → IsTimed p → IsTimed (show_outcome o p)
unfolding show_outcome fail reset
show_outcome-IsTimed goes_on p h = h
show_outcome-IsTimed fails p h = ground arith
show_outcome-IsTimed signed_in p h = h

with_attempt-IsTimed :
    (n : ℕ) (at : Attempt → Bool) (f : Attempt → Attempt × Outcome) (p : Page)
    → IsTimed p
    → IsTimed (with_attempt n at f p)
unfolding with_attempt
with_attempt-IsTimed n at f p h =
    show_outcome-IsTimed (step_attempt n at f p.attempts).1
      (record p { attempts = (step_attempt n at f p.attempts).0 }) h

on_event-IsTimed : (e : Event) (p : Page) → IsTimed p → IsTimed (on_event e p)
unfolding on_event on_submit waiting fail reset
on_event-IsTimed submitted p h = ground arith
on_event-IsTimed pair_clicked p h = ground arith
on_event-IsTimed modal_failed p h = ground arith
on_event-IsTimed timed_out p h = ground arith
on_event-IsTimed error_timed_out p h = ground arith
on_event-IsTimed (challenged n c) p h = with_attempt-IsTimed n _ _ p h
on_event-IsTimed (loaded n ok) p h = with_attempt-IsTimed n _ _ p h
on_event-IsTimed (status_changed n w) p h = with_attempt-IsTimed n _ _ p h
on_event-IsTimed (status_failed n) p h = with_attempt-IsTimed n _ _ p h
on_event-IsTimed (modal_changed n cancelled) p h = with_attempt-IsTimed n _ _ p h
on_event-IsTimed (verified n ok) p h = with_attempt-IsTimed n _ _ p h
on_event-IsTimed (vault_found reauth dev exists) p h = ground arith

run-IsTimed : (es : List Event) (p : Page) → IsTimed p → IsTimed (after_events es p)
unfolding after_events
run-IsTimed [] p h = h
run-IsTimed (e ∷ rest) p h = run-IsTimed rest (on_event e p) (on_event-IsTimed e p h)

first_page-IsTimed : (insecure : Bool) → IsTimed (first_page insecure)
unfolding first_page
first_page-IsTimed insecure = (refl, refl)

timed_out-waits : (p : Page) → IsTimed p → (on_event timed_out p).waits ≡ false
unfolding on_event fail reset
timed_out-waits p h = ground arith

-- After any events of the page of signing in, its button waits just while its timer runs, an error that
-- a secure page shows has its timer running, and the end of the button's timer leaves a button that does
-- not wait.
pub after_events-waits :
    (insecure : Bool) (es : List Event)
    → IsTimed (after_events es (first_page insecure))
      × ((on_event timed_out (after_events es (first_page insecure))).waits ≡ false)
after_events-waits insecure es =
    let timed = run-IsTimed es (first_page insecure) (first_page-IsTimed insecure) in
    (timed, timed_out-waits (after_events es (first_page insecure)) timed)
