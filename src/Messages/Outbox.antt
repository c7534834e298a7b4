-- ===== src/Messages/Outbox.antt =====
-- The messages that a chat sends: `enqueueMessageBatch` and `sendText` of backend/static/js/app/data.js, with the
-- promises of `messageSendQueues` as a list of batches. Jobs are numbers.
pub mod InOrder
use cryptis_dchat_project.Prelude.{
  ℕ, if◌then◌else◌, Bool, true, false, not, ◌&&◌, Option, none, some, List, [], ◌∷◌, ◌++◌, map,
}

-- A job was posted, its draft is marked as failed, or it was given up with its batch.
pub data End : Type 0 where
  posted marked dropped : End

-- `flying` is the job whose message is being sealed, uploaded or posted; `queue` has what is left of its batch and
-- the batches behind it. `here` is whether `threadById` finds the chat, which a locked page does not.
pub record Outbox : Type 0 where
  pub here : Bool
  pub flying : Option ℕ
  pub queue : List (List ℕ)
  pub done : List (ℕ × End)

abbrev pub first_outbox : Outbox
first_outbox = record { here = true; flying = none; queue = []; done = [] }

unfoldable pub drop_all : List ℕ → List (ℕ × End)
drop_all js = map (λ (j : ℕ). (j, dropped)) js

-- The next job: the first one of the batch, or where that is over, of the next batch, whose `then` comes whether or
-- not the batch before it threw. A job of a chat that is not found throws, and so ends its batch.
unfoldable pub advance : Bool → List (ℕ × End) → List (List ℕ) → Outbox
unfolding drop_all
advance here done [] = record { here = here; flying = none; queue = []; done = done }
advance here done ([] ∷ rest) = advance here done rest
advance true done ((j ∷ js) ∷ rest) = record {
  here = true;
  flying = some j;
  queue = js ∷ rest;
  done = done;
}
advance false done ((j ∷ js) ∷ rest) = advance false (done ++ drop_all (j ∷ js)) rest

-- `enqueueMessageBatch`, which throws where the chat is not found.
unfoldable pub enqueue : List ℕ → Outbox → Outbox
unfolding advance
enqueue jobs s =
    if s.here
    then elim s.flying [
      | none ↦ advance s.here s.done (s.queue ++ (jobs ∷ []))
      | some j ↦ record s { queue = s.queue ++ (jobs ∷ []) }
    ]
    else s

-- The end of the job that flies; an error is caught, and the draft is marked.
unfoldable pub job_ended : Bool → Outbox → Outbox
unfolding advance
job_ended ok s = elim s.flying [
  | none ↦ s
  | some j ↦ advance s.here (s.done ++ ((j, if ok then posted else marked) ∷ [])) s.queue
]

pub data Event : Type 0 where
  enqueued : List ℕ → Event
  ended : (ok : Bool) → Event
  found_again gone : Event

unfoldable pub on_event : Event → Outbox → Outbox
unfolding enqueue job_ended
on_event (enqueued jobs) s = enqueue jobs s
on_event (ended ok) s = job_ended ok s
on_event found_again s = record s { here = true }
on_event gone s = record s { here = false }

unfoldable pub after_events : List Event → Outbox → Outbox
unfolding on_event
after_events [] s = s
after_events (e ∷ rest) s = after_events rest (on_event e s)
