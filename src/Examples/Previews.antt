-- ===== src/Examples/Previews.antt =====
-- The theorem on previews at concrete events, and a run after which a locked page has an address that is not revoked.
use cryptis_dchat_project.Prelude.{◌≡◌, refl, true, List, [], ◌∷◌}
use cryptis_dchat_project.Previews.{
  first_previews, Event, asked, resumed, locks, unlocks, after_events, on_event, start, resume,
  on_file, on_image, finish, set_cached, delete_cached, has_cached, loader_at, put_at, clear, urls,
}
use cryptis_dchat_project.Previews.Locked.{after_events-hidden}

-- The page is locked while an image comes.
abbrev locked_while_loading : List Event
locked_while_loading = asked 5 true ∷ resumed 0 true ∷ locks ∷ resumed 0 true ∷ []

after_events-hidden_example : urls (after_events locked_while_loading first_previews).cache ≡ []
unfolding after_events on_event start resume on_file on_image finish has_cached loader_at put_at
    clear urls
after_events-hidden_example = after_events-hidden locked_while_loading refl

-- The page is locked and unlocked while an image comes, and asks for it again.
abbrev asked_twice : List Event
asked_twice =
    asked 5 true
    ∷ locks
    ∷ unlocks
    ∷ asked 5 true
    ∷ resumed 0 true
    ∷ resumed 1 true
    ∷ resumed 0 true
    ∷ resumed 0 true
    ∷ locks
    ∷ []

-- Two addresses were made, and one is revoked.
asked_twice-made : (after_events asked_twice first_previews).made ≡ 2
unfolding after_events on_event start resume on_file on_image finish has_cached loader_at put_at
    clear urls set_cached delete_cached
asked_twice-made = refl

asked_twice-revoked : (after_events asked_twice first_previews).revoked ≡ 1 ∷ []
unfolding after_events on_event start resume on_file on_image finish has_cached loader_at put_at
    clear urls set_cached delete_cached
asked_twice-revoked = refl
