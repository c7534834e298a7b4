-- ===== src/Previews.antt =====
-- The previews of images in backend/static/js/app/data.js: `loadImagePreview`, `releaseImagePreview` and
-- `clearImagePreviews`. Ids and object addresses are numbers; sizes are left out.
pub mod Locked
use cryptis_dchat_project.Prelude.{
  ℕ, zero, suc, ◌+◌, ◌==◌, if◌then◌else◌, Bool, true, false, not, ◌&&◌, ◌||◌, Option, none, some,
  List, [], ◌∷◌, ◌++◌, filter, any,
}

-- An address that is cached, or none for an error.
pub record Cached : Type 0 where
  pub id : ℕ
  pub url : Option ℕ

-- A call of `loadImagePreview` that waits for the file, or for the image of an address.
pub record Loader : Type 0 where
  pub id : ℕ
  pub url : Option ℕ

-- `locked` is a gate without an access token, as `lockApp` sets both; `made` numbers the addresses.
pub record Previews : Type 0 where
  pub locked : Bool
  pub cache : List Cached
  pub pending : List ℕ
  pub loaders : List Loader
  pub made : ℕ
  pub revoked : List ℕ

abbrev pub first_previews : Previews
first_previews = record {
  locked = false;
  cache = [];
  pending = [];
  loaders = [];
  made = 0;
  revoked = [];
}

unfoldable pub has_cached : ℕ → List Cached → Bool
has_cached id cache = any (λ (c : Cached). c.id == id) cache

-- `imagePreviewCache.delete`, and `set`, which forgets what was there.
unfoldable pub delete_cached : ℕ → List Cached → List Cached
delete_cached id cache = filter (λ (c : Cached). not (c.id == id)) cache

unfoldable pub set_cached : ℕ → Option ℕ → List Cached → List Cached
unfolding delete_cached
set_cached id url cache = record { id = id; url = url } ∷ delete_cached id cache

unfoldable pub urls : List Cached → List ℕ
urls [] = []
urls (c ∷ cs) = elim c.url [ none ↦ urls cs | some u ↦ u ∷ urls cs ]

-- The loader of a number.
unfoldable pub loader_at : ℕ → List Loader → Option Loader
loader_at n [] = none
loader_at zero (l ∷ ls) = some l
loader_at (suc n) (l ∷ ls) = loader_at n ls

unfoldable pub put_at : ℕ → Option Loader → List Loader → List Loader
put_at n l [] = []
put_at zero none (k ∷ ls) = ls
put_at zero (some l) (k ∷ ls) = l ∷ ls
put_at (suc n) l (k ∷ ls) = k ∷ put_at n l ls

-- The `finally` block.
unfoldable pub finish : ℕ → ℕ → Option ℕ → Previews → Previews
unfolding put_at
finish n id url s = record s {
  revoked = elim url [ none ↦ s.revoked | some u ↦ u ∷ s.revoked ];
  pending = filter (λ k. not (k == id)) s.pending;
  loaders = put_at n none s.loaders;
}

-- The call for a message, which is an image that is sent and decrypted or not.
unfoldable pub start : ℕ → Bool → Previews → Previews
unfolding has_cached
start id is_image s =
    if has_cached id s.cache || (any (λ k. k == id) s.pending || (not is_image || s.locked))
    then s
    else record s {
      pending = id ∷ s.pending;
      loaders = s.loaders ++ (record { id = id; url = none } ∷ []);
    }

-- The file came and is decrypted, or not.
unfoldable pub on_file : ℕ → Bool → Loader → Previews → Previews
unfolding finish set_cached put_at
on_file n ok l s =
    if ok
    then if s.locked then finish n l.id none s else record s {
      made = s.made + 1;
      loaders = put_at n (some (record l { url = some s.made })) s.loaders;
    }
    else finish n l.id none (record s { cache = set_cached l.id none s.cache })

-- The browser decoded the image, or not.
unfoldable pub on_image : ℕ → Bool → ℕ → ℕ → Previews → Previews
unfolding finish set_cached
on_image n ok id url s =
    if ok
    then if s.locked
      then finish n id (some url) s
      else finish n id none (record s { cache = set_cached id (some url) s.cache })
    else finish n id (some url) (record s { cache = set_cached id none s.cache })

unfoldable pub resume : ℕ → Bool → Previews → Previews
unfolding on_file on_image loader_at
resume n ok s = elim (loader_at n s.loaders) [
  | none ↦ s
  | some l ↦ elim l.url [ none ↦ on_file n ok l s | some u ↦ on_image n ok l.id u s ]
]

-- `releaseImagePreview`
unfoldable pub release : ℕ → Previews → Previews
unfolding delete_cached urls
release id s = record s {
  revoked = urls (filter (λ (c : Cached). c.id == id) s.cache) ++ s.revoked;
  cache = delete_cached id s.cache;
}

-- `clearImagePreviews`
unfoldable pub clear : Previews → Previews
unfolding urls
clear s = record s { revoked = urls s.cache ++ s.revoked; cache = []; pending = [] }

pub data Event : Type 0 where
  asked : (id : ℕ) (is_image : Bool) → Event
  resumed : (loader : ℕ) (ok : Bool) → Event
  expired : (id : ℕ) → Event
  locks unlocks : Event

unfoldable pub on_event : Event → Previews → Previews
unfolding start resume release clear
on_event (asked id is_image) s = start id is_image s
on_event (resumed n ok) s = resume n ok s
on_event (expired id) s = release id s
on_event locks s = record (clear s) { locked = true }
on_event unlocks s = record s { locked = false }

unfoldable pub after_events : List Event → Previews → Previews
unfolding on_event
after_events [] s = s
after_events (e ∷ rest) s = after_events rest (on_event e s)
