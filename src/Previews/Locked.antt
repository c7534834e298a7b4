-- ===== src/Previews/Locked.antt =====
-- A locked page keeps no preview of an image: backend/static/js/app/data.js.
use cryptis_dchat_project.Prelude.{
  ℕ, ◌+◌, ◌==◌, any, ◌≡◌, refl, sym, ap, ◌∙◌, if◌then◌else◌, Bool, true, false, not, ◌||◌, Option,
  none, some, List, [], ◌∷◌, ◌++◌, filter, arith,
}
use cryptis_dchat_project.Previews.{
  Cached, Loader, Previews, first_previews, delete_cached, set_cached, urls, loader_at, finish,
  start, on_file, on_image, resume, release, clear, put_at, has_cached, Event, asked, resumed,
  expired, locks, unlocks, on_event, after_events,
}

-- Whether nothing is cached while the page is locked.
unfoldable hides : Bool → List ℕ → Bool
hides locked [] = true
hides locked (u ∷ us) = not locked

abbrev IsHidden : Previews → Type 0
IsHidden s = hides s.locked (urls s.cache) ≡ true

urls-filter : (p : Cached → Bool) (cs : List Cached) → urls cs ≡ [] → urls (filter p cs) ≡ []
unfolding urls
urls-filter p [] h = refl
urls-filter p (c ∷ cs) h = ground (arith, urls-filter p cs)

hides-true : (us : List ℕ) → hides true us ≡ true → us ≡ []
unfolding hides
hides-true [] h = refl
hides-true (u ∷ us) h = absurd (cc h)

hides-false : (us : List ℕ) → hides false us ≡ true
unfolding hides
hides-false [] = refl
hides-false (u ∷ us) = refl

hides_delete :
    (locked : Bool) (id : ℕ) (cs : List Cached)
    → hides locked (urls cs) ≡ true
    → hides locked (urls (delete_cached id cs)) ≡ true
unfolding hides delete_cached
hides_delete true id cs h = ap (hides true) (urls-filter _ cs (hides-true (urls cs) h))
hides_delete false id cs h = hides-false _

hides_error :
    (locked : Bool) (id : ℕ) (cs : List Cached)
    → hides locked (urls cs) ≡ true
    → hides locked (urls (set_cached id none cs)) ≡ true
unfolding set_cached urls
hides_error locked id cs h = hides_delete locked id cs h

on_file-IsHidden :
    (n : ℕ) (ok : Bool) (l : Loader) (s : Previews) → IsHidden s → IsHidden (on_file n ok l s)
unfolding on_file finish
on_file-IsHidden n false l s h = hides_error s.locked l.id s.cache h
on_file-IsHidden n true l s h = at s.locked
  where
    at :
        (b : Bool)
        → IsHidden (
            if b then finish n l.id none s else record s {
              made = s.made + 1;
              loaders = put_at n (some (record l { url = some s.made })) s.loaders;
            })
    at true = h
    at false = h

on_image-IsHidden :
    (n : ℕ) (ok : Bool) (id url : ℕ) (s : Previews) → IsHidden s → IsHidden (on_image n ok id url s)
unfolding on_image finish
on_image-IsHidden n false id url s h = hides_error s.locked id s.cache h
on_image-IsHidden n true id url s h = at s.locked refl
  where
    at :
        (b : Bool)
        → b ≡ s.locked
        → IsHidden (
            if b
            then finish n id (some url) s
            else finish n id none (record s { cache = set_cached id (some url) s.cache }))
    at true same = h
    at false same =
        ap (λ b. hides b (urls (set_cached id (some url) s.cache))) (sym same) ∙ hides-false _

resume-IsHidden : (n : ℕ) (ok : Bool) (s : Previews) → IsHidden s → IsHidden (resume n ok s)
unfolding resume
resume-IsHidden n ok s h = at (loader_at n s.loaders)
  where
    step :
        (l : Loader) (url : Option ℕ)
        → IsHidden (elim url [ none ↦ on_file n ok l s | some u ↦ on_image n ok l.id u s ])
    step l none = on_file-IsHidden n ok l s h
    step l (some u) = on_image-IsHidden n ok l.id u s h

    at :
        (found : Option Loader)
        → IsHidden (elim found [
          | none ↦ s
          | some l ↦ elim l.url [ none ↦ on_file n ok l s | some u ↦ on_image n ok l.id u s ]
        ])
    at none = h
    at (some l) = step l l.url

start-IsHidden :
    (id : ℕ) (is_image : Bool) (s : Previews) → IsHidden s → IsHidden (start id is_image s)
unfolding start
start-IsHidden id is_image s h =
    at (has_cached id s.cache || (any (λ k. k == id) s.pending || (not is_image || s.locked)))
  where
    at :
        (b : Bool)
        → IsHidden (
            if b then s else record s {
              pending = id ∷ s.pending;
              loaders = s.loaders ++ (record { id = id; url = none } ∷ []);
            })
    at true = h
    at false = h

on_event-IsHidden : (e : Event) (s : Previews) → IsHidden s → IsHidden (on_event e s)
unfolding on_event release clear urls hides
on_event-IsHidden (asked id is_image) s h = start-IsHidden id is_image s h
on_event-IsHidden (resumed n ok) s h = resume-IsHidden n ok s h
on_event-IsHidden (expired id) s h = hides_delete s.locked id s.cache h
on_event-IsHidden locks s h = refl
on_event-IsHidden unlocks s h = hides-false _

run-IsHidden : (es : List Event) (s : Previews) → IsHidden s → IsHidden (after_events es s)
unfolding after_events
run-IsHidden [] s h = h
run-IsHidden (e ∷ rest) s h = run-IsHidden rest (on_event e s) (on_event-IsHidden e s h)

-- After any calls and ends of calls for previews, expiries, locks and unlocks, a page that is locked has
-- no decrypted image in its cache of previews.
pub after_events-hidden :
    (es : List Event)
    → (after_events es first_previews).locked ≡ true
    → urls (after_events es first_previews).cache ≡ []
unfolding hides urls
after_events-hidden es locked = hides-true _ (
    ap (λ b. hides b (urls (after_events es first_previews).cache)) (sym locked)
    ∙ run-IsHidden es first_previews refl)
