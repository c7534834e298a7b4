-- ===== src/Rotation.antt =====
-- The rotation of a group's keys: `rotateGroup` of backend/static/js/app/data.js. A run is a call that waits; each
-- await is a step. How a commit is built is in TreeKem.
pub mod Alone
use cryptis_dchat_project.Prelude.{
  ℕ, zero, suc, ◌==◌, if◌then◌else◌, Bool, true, false, not, ◌&&◌, ◌||◌, Option, none, some, List,
  [], ◌∷◌, ◌++◌, filter, any,
}

pub data Phase : Type 0 where
  sleeps asks_detail asks_plan builds commits syncs reloads : Phase

-- `soon` is `preferred || periodic`.
pub record Run : Type 0 where
  pub thread : ℕ
  pub soon : Bool
  pub periodic : Bool
  pub phase : Phase

-- What an await gives: an error, or a value, which of a chat's details is whether its rotation is pending.
pub data Reply : Type 0 where
  failed no yes : Reply

pub data Sent : Type 0 where
  get_detail sync_tree load_members : (thread : ℕ) → Sent
  get_plan post_commit : (thread : ℕ) (periodic : Bool) → Sent

-- `locked` is a gate or no access token; `rotating` are the chats whose flag is set.
pub record Rotations : Type 0 where
  pub locked : Bool
  pub rotating : List ℕ
  pub runs : List Run
  pub sent : List Sent

abbrev pub first_rotations : Rotations
first_rotations = record { locked = false; rotating = []; runs = []; sent = [] }

-- The next await of a run, or none at its end.
unfoldable pub next_phase : Bool → Reply → Bool → Phase → Option Phase
next_phase locked reply soon sleeps =
    if locked then none else if soon then some asks_plan else some asks_detail
next_phase locked yes soon asks_detail = some asks_plan
next_phase locked reply soon asks_detail = none
next_phase locked failed soon asks_plan = none
next_phase locked reply soon asks_plan = some builds
next_phase locked failed soon builds = none
next_phase locked reply soon builds = some commits
next_phase locked reply soon commits = some syncs
next_phase locked failed soon syncs = none
next_phase locked reply soon syncs = some reloads
next_phase locked reply soon reloads = none

unfoldable pub sends : Run → List Sent
sends r = elim r.phase [
  | sleeps ↦ []
  | asks_detail ↦ get_detail r.thread ∷ []
  | asks_plan ↦ get_plan r.thread r.periodic ∷ []
  | builds ↦ []
  | commits ↦ post_commit r.thread r.periodic ∷ []
  | syncs ↦ sync_tree r.thread ∷ []
  | reloads ↦ load_members r.thread ∷ []
]

unfoldable pub is_rotating : ℕ → List ℕ → Bool
is_rotating thread rotating = any (λ k. k == thread) rotating

-- The call.
unfoldable pub rotate_group : ℕ → (preferred periodic : Bool) → Rotations → Rotations
unfolding is_rotating
rotate_group thread preferred periodic s = if is_rotating thread s.rotating then s else record s {
  rotating = thread ∷ s.rotating;
  runs =
      record { thread = thread; soon = preferred || periodic; periodic = periodic; phase = sleeps }
      ∷ s.runs;
}

-- The step of the run of a number: the chat whose run ended, if one did, the runs, and what is sent.
unfoldable pub step_runs : Bool → ℕ → Reply → List Run → Option ℕ × (List Run × List Sent)
unfolding next_phase sends
step_runs locked n reply [] = (none, ([], []))
step_runs locked zero reply (r ∷ rs) = elim (next_phase locked reply r.soon r.phase) [
  | none ↦ (some r.thread, (rs, []))
  | some ph ↦ (none, (record r { phase = ph } ∷ rs, sends (record r { phase = ph })))
]
step_runs locked (suc n) reply (r ∷ rs) =
    let rest = step_runs locked n reply rs in (rest.0, (r ∷ rest.1.0, rest.1.1))

-- The `finally` block clears the flag.
unfoldable pub cleared : Option ℕ → List ℕ → List ℕ
cleared none rotating = rotating
cleared (some thread) rotating = filter (λ k. not (k == thread)) rotating

unfoldable pub resume : ℕ → Reply → Rotations → Rotations
unfolding step_runs cleared
resume n reply s =
    let stepped = step_runs s.locked n reply s.runs in
    record s {
      rotating = cleared stepped.0 s.rotating;
      runs = stepped.1.0;
      sent = s.sent ++ stepped.1.1;
    }

pub data Event : Type 0 where
  called : (thread : ℕ) (preferred periodic : Bool) → Event
  resumed : (run : ℕ) → Reply → Event
  gate_changed : (locked : Bool) → Event

unfoldable pub on_event : Event → Rotations → Rotations
unfolding rotate_group resume
on_event (called thread preferred periodic) s = rotate_group thread preferred periodic s
on_event (resumed n reply) s = resume n reply s
on_event (gate_changed locked) s = record s { locked = locked }

unfoldable pub after_events : List Event → Rotations → Rotations
unfolding on_event
after_events [] s = s
after_events (e ∷ rest) s = after_events rest (on_event e s)
