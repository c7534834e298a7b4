-- ===== src/Messages.antt =====
-- The messages of a chat in backend/static/js/app/data.js: pages from the server, drafts, messages that
-- arrive, and the part that is kept in the vault.
pub mod Order
pub mod Arrival
pub mod Pages
pub mod Cache
pub mod Failed
pub mod Outbox
use cryptis_dchat_project.Prelude.{
  ℕ, suc, ◌+◌, ◌*◌, ◌==◌, ltb, leb, if◌then◌else◌, Bool, true, false, not, ◌&&◌, ◌||◌, Option, none,
  some, List, [], ◌∷◌, ◌++◌, map, any, filter, take_last, String, str_eq,
}

-- A message as `decodeMessage` gives it; an `expires_at` of 0 is none, and `content` stands for the text,
-- the file and the reactions.
pub record Message : Type 0 where
  pub id : String
  pub client_id : String
  pub seq : ℕ
  pub pending : Bool
  pub failed : Bool
  pub bad : Bool
  pub confirmed : Bool
  pub expires_at : ℕ
  pub content : ℕ

abbrev pub max_safe_integer : ℕ
max_safe_integer = 9007199254740991

-- `.sort((a, b) => a.seq - b.seq)`, which is stable.
unfoldable pub insert_by_seq : Message → List Message → List Message
insert_by_seq m [] = m ∷ []
insert_by_seq m (x ∷ xs) = if leb m.seq x.seq then m ∷ x ∷ xs else x ∷ insert_by_seq m xs

unfoldable pub sort_by_seq : List Message → List Message
unfolding insert_by_seq
sort_by_seq [] = []
sort_by_seq (m ∷ ms) = insert_by_seq m (sort_by_seq ms)

-- `byId.set(m.id, m)`: the place of a key is that of its first value.
unfoldable pub set_by_id : Message → List Message → List Message
set_by_id m [] = m ∷ []
set_by_id m (x ∷ xs) = if str_eq x.id m.id then m ∷ xs else x ∷ set_by_id m xs

unfoldable pub set_all : List Message → List Message → List Message
unfolding set_by_id
set_all [] by_id = by_id
set_all (m ∷ ms) by_id = set_all ms (set_by_id m by_id)

-- `loadMessages` after the reply: `older` is whether a page before the first message was asked for.
unfoldable pub load_messages : Bool → List Message → List Message → List Message
unfolding set_all sort_by_seq
load_messages older decoded existing =
    if older
    then sort_by_seq (set_all existing (set_all decoded (set_all existing [])))
    else sort_by_seq (set_all decoded (set_all (filter (λ m. m.pending) existing) []))

abbrev pub cache_per_thread : ℕ
cache_per_thread = 100

-- What `cacheMessages` puts into the vault's state.
unfoldable pub cache_messages : List Message → List Message
cache_messages ms = take_last cache_per_thread (filter (λ m. not m.pending && not m.bad) ms)

unfoldable pub add_local : Message → List Message → List Message
add_local m ms = ms ++ m ∷ []

-- The draft of `addPendingMessage`; `uuid` was drawn.
unfoldable pub draft : String → String → ℕ → Message
draft uuid local_id content = record {
  id = local_id;
  client_id = uuid;
  seq = max_safe_integer;
  pending = true;
  failed = false;
  bad = false;
  confirmed = false;
  expires_at = 0;
  content = content;
}

unfoldable pub replace_local : String → Message → List Message → List Message
unfolding sort_by_seq
replace_local local_id m ms =
    sort_by_seq (filter (λ x. not (str_eq x.id local_id) && not (str_eq x.id m.id)) ms ++ m ∷ [])

-- The `catch` of `postPacket` and of `sendFile`.
unfoldable pub mark_failed : String → List Message → List Message
mark_failed local_id [] = []
mark_failed local_id (x ∷ xs) =
    if str_eq x.id local_id
    then record x { pending = false; failed = true } ∷ xs
    else x ∷ mark_failed local_id xs

-- `seen` of `onIncoming`
unfoldable pub seen : Message → List Message → Bool
seen m ms = any (λ x. str_eq x.id m.id || str_eq x.client_id m.client_id && not x.pending) ms

-- `onIncoming`, on a list that was loaded.
unfoldable pub on_incoming : Message → List Message → List Message
unfolding seen sort_by_seq
on_incoming m ms =
    if seen m ms
    then ms
    else sort_by_seq (filter (λ x. not (str_eq x.client_id m.client_id)) ms ++ m ∷ [])

-- `message.confirmed` of `onWsFrame`.
unfoldable pub confirm : List String → List Message → List Message
confirm ids ms =
    map (λ m. if any (λ i. str_eq i m.id) ids then record m { confirmed = true } else m) ms

-- `purgeExpired` for one chat.
unfoldable pub purge_expired : ℕ → List Message → List Message
purge_expired now ms = filter (λ m. m.expires_at == 0 || ltb now m.expires_at) ms
