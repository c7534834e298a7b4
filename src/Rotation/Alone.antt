-- ===== src/Rotation/Alone.antt =====
-- A device rotates the keys of a group once at a time: `rotateGroup` of backend/static/js/app/data.js.
use cryptis_dchat_project.Prelude.{
  ℕ, zero, suc, ◌+◌, ◌==◌, ==_iff, ◌≡◌, refl, sym, ap, ◌∙◌, if◌then◌else◌, Bool, true, false, not,
  ◌&&◌, ◌||◌, Option, none, some, List, [], ◌∷◌, arith,
}
use cryptis_dchat_project.Rotation.{
  Phase, Run, Sent, Reply, Rotations, first_rotations, next_phase, sends, is_rotating, sleeps,
  rotate_group, step_runs, cleared, resume, Event, called, resumed, gate_changed, on_event,
  after_events,
}

-- The runs of a chat.
unfoldable pub runs_of : ℕ → List Run → ℕ
runs_of thread [] = 0
runs_of thread (r ∷ rs) = if r.thread == thread then runs_of thread rs + 1 else runs_of thread rs

-- The runs of a chat that ended.
unfoldable ended_of : ℕ → Option ℕ → ℕ
ended_of thread none = 0
ended_of thread (some t) = if t == thread then 1 else 0

abbrev IsAlone : ℕ → Rotations → Type 0
IsAlone thread s = runs_of thread s.runs ≡ (if is_rotating thread s.rotating then 1 else 0)

-- A step ends a run or leaves the number of them.
runs_of-step :
    (locked : Bool) (n : ℕ) (reply : Reply) (thread : ℕ) (rs : List Run)
    → runs_of thread (step_runs locked n reply rs).1.0
        + ended_of thread (step_runs locked n reply rs).0
      ≡ runs_of thread rs
unfolding step_runs runs_of ended_of
runs_of-step locked n reply thread [] = refl
runs_of-step locked zero reply thread (r ∷ rs) = at (next_phase locked reply r.soon r.phase)
  where
    stepped : Option Phase → Option ℕ × (List Run × List Sent)
    stepped p = elim p [
      | none ↦ (some r.thread, (rs, []))
      | some ph ↦ (none, (record r { phase = ph } ∷ rs, sends (record r { phase = ph })))
    ]

    at :
        (p : Option Phase)
        → runs_of thread (stepped p).1.0 + ended_of thread (stepped p).0 ≡ runs_of thread (r ∷ rs)
    at none = ground arith
    at (some ph) = omega arith
runs_of-step locked (suc n) reply thread (r ∷ rs) =
    ground (arith, runs_of-step locked n reply thread rs)

is_rotating-cleared :
    (thread t : ℕ) (rotating : List ℕ)
    → is_rotating thread (cleared (some t) rotating)
      ≡ (is_rotating thread rotating && not (t == thread))
unfolding is_rotating cleared
is_rotating-cleared thread t [] = refl
is_rotating-cleared thread t (k ∷ ks) = ground (arith, is_rotating-cleared thread t ks)

ended_none :
    (count total : ℕ) (set_flag : Bool)
    → count + 0 ≡ total
    → total ≡ (if set_flag then 1 else 0)
    → count ≡ (if set_flag then 1 else 0)
ended_none count total set_flag k h = sym (plus_zero count) ∙ k ∙ h
  where
    plus_zero : (n : ℕ) → n + 0 ≡ n
    plus_zero n = omega arith

ended_some :
    (count total : ℕ) (set_flag same : Bool)
    → count + (if same then 1 else 0) ≡ total
    → total ≡ (if set_flag then 1 else 0)
    → count ≡ (if set_flag && not same then 1 else 0)
ended_some count total true true k h = omega arith
ended_some count total true false k h = omega arith
ended_some count total false true k h = omega arith
ended_some count total false false k h = omega arith

-- A run that starts, of the chat itself only if its flag was not set.
started :
    (count : ℕ) (same set_flag : Bool)
    → count ≡ (if set_flag then 1 else 0)
    → (same ≡ true → set_flag ≡ false)
    → (if same then count + 1 else count) ≡ (if same || set_flag then 1 else 0)
started count true true h fresh = absurd (cc (fresh refl))
started count true false h fresh = omega arith
started count false set_flag h fresh = h

resume-IsAlone :
    (n : ℕ) (reply : Reply) (thread : ℕ) (s : Rotations)
    → IsAlone thread s
    → IsAlone thread (resume n reply s)
unfolding resume ended_of cleared
resume-IsAlone n reply thread s h =
    at (step_runs s.locked n reply s.runs).0 _ (runs_of-step s.locked n reply thread s.runs)
  where
    at :
        (ended : Option ℕ) (count : ℕ)
        → count + ended_of thread ended ≡ runs_of thread s.runs
        → count ≡ (if is_rotating thread (cleared ended s.rotating) then 1 else 0)
    at none count k = ended_none count _ _ k h
    at (some t) count k =
        ended_some count _ (is_rotating thread s.rotating) (t == thread) k h
        ∙ ap (λ b. if b then 1 else 0) (sym (is_rotating-cleared thread t s.rotating))

rotate_group-IsAlone :
    (id : ℕ) (preferred periodic : Bool) (thread : ℕ) (s : Rotations)
    → IsAlone thread s
    → IsAlone thread (rotate_group id preferred periodic s)
unfolding rotate_group runs_of is_rotating
rotate_group-IsAlone id preferred periodic thread s h = at (is_rotating id s.rotating) refl
  where
    fresh : Rotations
    fresh = record s {
      rotating = id ∷ s.rotating;
      runs =
          record { thread = id; soon = preferred || periodic; periodic = periodic; phase = sleeps }
          ∷ s.runs;
    }

    at : (b : Bool) → b ≡ is_rotating id s.rotating → IsAlone thread (if b then s else fresh)
    at true same = h
    at false same =
        started (runs_of thread s.runs) (id == thread) (is_rotating thread s.rotating) h
          (λ q. ap (λ k. is_rotating k s.rotating) (sym ((==_iff id thread).0 q)) ∙ sym same)

on_event-IsAlone :
    (e : Event) (thread : ℕ) (s : Rotations) → IsAlone thread s → IsAlone thread (on_event e s)
unfolding on_event
on_event-IsAlone (called id preferred periodic) thread s h =
    rotate_group-IsAlone id preferred periodic thread s h
on_event-IsAlone (resumed n reply) thread s h = resume-IsAlone n reply thread s h
on_event-IsAlone (gate_changed locked) thread s h = h

run-IsAlone :
    (es : List Event) (thread : ℕ) (s : Rotations)
    → IsAlone thread s
    → IsAlone thread (after_events es s)
unfolding after_events
run-IsAlone [] thread s h = h
run-IsAlone (e ∷ rest) thread s h =
    run-IsAlone rest thread (on_event e s) (on_event-IsAlone e thread s h)

-- After any calls for the rotation of groups' keys, replies and changes of the gate, a chat has one call
-- that waits if its flag is set, and none if it is not.
pub after_events-alone :
    (es : List Event) (thread : ℕ)
    → runs_of thread (after_events es first_rotations).runs
      ≡ (if is_rotating thread (after_events es first_rotations).rotating then 1 else 0)
unfolding runs_of is_rotating
after_events-alone es thread = run-IsAlone es thread first_rotations refl
