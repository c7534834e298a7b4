-- ===== src/Examples/Rotation.antt =====
-- The theorem on rotations at a concrete run, in which a group is asked for twice.
use cryptis_dchat_project.Prelude.{◌≡◌, true, false, List, [], ◌∷◌}
use cryptis_dchat_project.Rotation.{
  first_rotations, Event, called, resumed, yes, after_events, on_event, rotate_group, resume,
  step_runs, next_phase, sends, cleared, is_rotating,
}
use cryptis_dchat_project.Rotation.Alone.{runs_of, after_events-alone}

abbrev asked_again : List Event
asked_again = called 4 true false ∷ resumed 0 yes ∷ called 4 false false ∷ called 5 false true ∷ []

after_events-alone_example : runs_of 4 (after_events asked_again first_rotations).runs ≡ 1
unfolding after_events on_event rotate_group resume step_runs next_phase sends cleared is_rotating
after_events-alone_example = after_events-alone asked_again 4
