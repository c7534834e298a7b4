-- ===== src/Messages/Outbox/InOrder.antt =====
-- Messages of a chat are sent in the order in which they were written: backend/static/js/app/data.js.
use cryptis_dchat_project.Prelude.{
  ℕ, ◌≡◌, refl, subst, sym, ap, ◌∙◌, if◌then◌else◌, Bool, true, false, Option, none, some, List, [],
  ◌∷◌, ◌++◌, map, append_assoc, append-nil,
}
use cryptis_dchat_project.Messages.Outbox.{
  End, posted, marked, Outbox, first_outbox, drop_all, advance, enqueue, job_ended, Event, enqueued,
  ended, found_again, gone, on_event, after_events,
}

unfoldable pub joined : List (List ℕ) → List ℕ
joined [] = []
joined (b ∷ bs) = b ++ joined bs

unfoldable pub in_flight : Option ℕ → List ℕ
in_flight none = []
in_flight (some j) = j ∷ []

unfoldable pub ended_jobs : List (ℕ × End) → List ℕ
ended_jobs done = map (λ (d : ℕ × End). d.0) done

-- The jobs of an outbox: those that ended, the one that flies and those that wait.
unfoldable pub jobs_of : Outbox → List ℕ
unfolding joined in_flight ended_jobs
jobs_of s = ended_jobs s.done ++ (in_flight s.flying ++ joined s.queue)

-- What was given to the outbox while the chat was there.
unfoldable pub given : Bool → List Event → List ℕ
given here [] = []
given here (enqueued jobs ∷ rest) = (if here then jobs else []) ++ given here rest
given here (ended ok ∷ rest) = given here rest
given here (found_again ∷ rest) = given true rest
given here (gone ∷ rest) = given false rest

ended_jobs-append :
    (xs ys : List (ℕ × End)) → ended_jobs (xs ++ ys) ≡ ended_jobs xs ++ ended_jobs ys
unfolding ended_jobs
ended_jobs-append [] ys = refl
ended_jobs-append (x ∷ xs) ys = ap (λ l. x.0 ∷ l) (ended_jobs-append xs ys)

ended_jobs-drop_all : (js : List ℕ) → ended_jobs (drop_all js) ≡ js
unfolding ended_jobs drop_all
ended_jobs-drop_all [] = refl
ended_jobs-drop_all (j ∷ js) = ap (λ l. j ∷ l) (ended_jobs-drop_all js)

joined-append : (bs cs : List (List ℕ)) → joined (bs ++ cs) ≡ joined bs ++ joined cs
unfolding joined
joined-append [] cs = refl
joined-append (b ∷ bs) cs =
    ap (λ l. b ++ l) (joined-append bs cs) ∙ sym (append_assoc b (joined bs) (joined cs))

advance-jobs :
    (here : Bool) (done : List (ℕ × End)) (queue : List (List ℕ))
    → jobs_of (advance here done queue) ≡ ended_jobs done ++ joined queue
unfolding advance jobs_of joined in_flight
advance-jobs here done [] = refl
advance-jobs here done ([] ∷ rest) = advance-jobs here done rest
advance-jobs true done ((j ∷ js) ∷ rest) = refl
advance-jobs false done ((j ∷ js) ∷ rest) =
    advance-jobs false (done ++ drop_all (j ∷ js)) rest
    ∙ ap (λ l. l ++ joined rest)
        (ended_jobs-append done (drop_all (j ∷ js))
          ∙ ap (λ l. ended_jobs done ++ l) (ended_jobs-drop_all (j ∷ js)))
    ∙ append_assoc (ended_jobs done) (j ∷ js) (joined rest)

-- Nothing waits where nothing flies.
abbrev pub IsIdle : Outbox → Type 0
IsIdle s = elim s.flying [ none ↦ s.queue ≡ [] | some j ↦ Unit {0} ]

advance-IsIdle :
    (here : Bool) (done : List (ℕ × End)) (queue : List (List ℕ)) → IsIdle (advance here done queue)
unfolding advance
advance-IsIdle here done [] = refl
advance-IsIdle here done ([] ∷ rest) = advance-IsIdle here done rest
advance-IsIdle true done ((j ∷ js) ∷ rest) = tt
advance-IsIdle false done ((j ∷ js) ∷ rest) = advance-IsIdle false (done ++ drop_all (j ∷ js)) rest

advance-here :
    (here : Bool) (done : List (ℕ × End)) (queue : List (List ℕ))
    → (advance here done queue).here ≡ here
unfolding advance
advance-here here done [] = refl
advance-here here done ([] ∷ rest) = advance-here here done rest
advance-here true done ((j ∷ js) ∷ rest) = refl
advance-here false done ((j ∷ js) ∷ rest) = advance-here false (done ++ drop_all (j ∷ js)) rest

-- A step adds jobs at the end.
abbrev Adds : List ℕ → Bool → Outbox → Outbox → Type 0
Adds new here s s' = (jobs_of s' ≡ jobs_of s ++ new) × (s'.here ≡ here) × IsIdle s'

job_ended-Adds : (ok : Bool) (s : Outbox) → IsIdle s → Adds [] s.here s (job_ended ok s)
unfolding job_ended jobs_of in_flight joined ended_jobs
job_ended-Adds ok s h = at s.flying refl
  where
    step : Option ℕ → Outbox
    step flying = elim flying [
      | none ↦ s
      | some j ↦ advance s.here (s.done ++ ((j, if ok then posted else marked) ∷ [])) s.queue
    ]

    at : (flying : Option ℕ) → flying ≡ s.flying → Adds [] s.here s (step flying)
    at none same = (sym (append-nil (jobs_of s)), refl, h)
    at (some j) same = (
      advance-jobs s.here (s.done ++ ((j, if ok then posted else marked) ∷ [])) s.queue
          ∙ ap (λ l. l ++ joined s.queue)
              (ended_jobs-append s.done ((j, if ok then posted else marked) ∷ []))
          ∙ append_assoc (ended_jobs s.done) (j ∷ []) (joined s.queue)
          ∙ ap (λ f. ended_jobs s.done ++ (in_flight f ++ joined s.queue)) same
          ∙ sym (append-nil (jobs_of s)),
      advance-here s.here _ s.queue,
      advance-IsIdle s.here _ s.queue,
    )

enqueue-Adds :
    (jobs : List ℕ) (s : Outbox)
    → IsIdle s
    → Adds (if s.here then jobs else []) s.here s (enqueue jobs s)
unfolding enqueue jobs_of in_flight joined ended_jobs
enqueue-Adds jobs s h = at s.here refl s.flying refl
  where
    step : Bool → Option ℕ → Outbox
    step here flying =
        if here
        then elim flying [
          | none ↦ advance s.here s.done (s.queue ++ (jobs ∷ []))
          | some j ↦ record s { queue = s.queue ++ (jobs ∷ []) }
        ]
        else s

    grown : joined (s.queue ++ (jobs ∷ [])) ≡ joined s.queue ++ jobs
    grown = joined-append s.queue (jobs ∷ []) ∙ ap (λ l. joined s.queue ++ l) (append-nil jobs)

    at :
        (here : Bool)
        → here ≡ s.here
        → (flying : Option ℕ) → flying ≡ s.flying
        → Adds (if here then jobs else []) s.here s (step here flying)
    at false gone_now flying same = (sym (append-nil (jobs_of s)), refl, h)
    at true found_now none same = (
      advance-jobs s.here s.done (s.queue ++ (jobs ∷ []))
          ∙ ap (λ l. ended_jobs s.done ++ l) grown
          ∙ ap (λ f. ended_jobs s.done ++ ((in_flight f ++ joined s.queue) ++ jobs)) same
          ∙ sym (append_assoc (ended_jobs s.done) (in_flight s.flying ++ joined s.queue) jobs),
      advance-here s.here s.done (s.queue ++ (jobs ∷ [])),
      advance-IsIdle s.here s.done (s.queue ++ (jobs ∷ [])),
    )
    at true found_now (some j) same = (
      ap (λ l. ended_jobs s.done ++ (in_flight s.flying ++ l)) grown
          ∙ ap (λ l. ended_jobs s.done ++ l)
              (sym (append_assoc (in_flight s.flying) (joined s.queue) jobs))
          ∙ sym (append_assoc (ended_jobs s.done) (in_flight s.flying ++ joined s.queue) jobs),
      refl,
      subst
          (λ f. elim f as (λ x. Type 0) [ none ↦ s.queue ++ (jobs ∷ []) ≡ [] | some k ↦ Unit {0} ])
          same tt,
    )

-- What an event gives to the outbox, and whether the chat is there after it.
unfoldable given_by : Bool → Event → List ℕ
given_by here (enqueued jobs) = if here then jobs else []
given_by here e = []

unfoldable here_after : Bool → Event → Bool
here_after here found_again = true
here_after here gone = false
here_after here e = here

on_event-Adds :
    (e : Event) (s : Outbox)
    → IsIdle s
    → Adds (given_by s.here e) (here_after s.here e) s (on_event e s)
unfolding on_event given_by here_after jobs_of
on_event-Adds (enqueued jobs) s h = enqueue-Adds jobs s h
on_event-Adds (ended ok) s h = job_ended-Adds ok s h
on_event-Adds found_again s h = (sym (append-nil (jobs_of s)), refl, h)
on_event-Adds gone s h = (sym (append-nil (jobs_of s)), refl, h)

given-cons :
    (here : Bool) (e : Event) (rest : List Event)
    → given here (e ∷ rest) ≡ given_by here e ++ given (here_after here e) rest
unfolding given given_by here_after
given-cons here (enqueued jobs) rest = refl
given-cons here (ended ok) rest = refl
given-cons here found_again rest = refl
given-cons here gone rest = refl

given-nil : (here : Bool) → [] ≡ given here []
unfolding given
given-nil here = refl

after_events-jobs_of :
    (es : List Event) (s : Outbox)
    → IsIdle s
    → (jobs_of (after_events es s) ≡ jobs_of s ++ given s.here es) × IsIdle (after_events es s)
unfolding after_events
after_events-jobs_of [] s h =
    (sym (append-nil (jobs_of s)) ∙ ap (λ l. jobs_of s ++ l) (given-nil s.here), h)
after_events-jobs_of (e ∷ rest) s h =
    let (added, here, idle) = on_event-Adds e s h in
    let (jobs, still) = after_events-jobs_of rest (on_event e s) idle in
    (
      jobs
          ∙ ap (λ l. l ++ given (on_event e s).here rest) added
          ∙ append_assoc (jobs_of s) (given_by s.here e) (given (on_event e s).here rest)
          ∙ ap (λ b. jobs_of s ++ (given_by s.here e ++ given b rest)) here
          ∙ ap (λ l. jobs_of s ++ l) (sym (given-cons s.here e rest)),
      still,
    )

-- The messages of a chat that have been sent, failed or were given up, the one that is being sent and
-- those that wait are, in this order and each once, the messages that were given to the chat while it
-- was there; and none waits where none is being sent.
pub after_events-in_order :
    (es : List Event)
    → (jobs_of (after_events es first_outbox) ≡ given true es)
      × IsIdle (after_events es first_outbox)
unfolding given jobs_of
after_events-in_order es = after_events-jobs_of es first_outbox refl
