-- ===== src/Threads.antt =====
-- The list of chats in backend/static/js/app/data.js: `toThread`, `loadThreads`, `bumpThread` and
-- `markReadSoon`. Ids are numbers; of a chat's fields there are those that events change or read.
pub mod Latest
pub mod Frames
pub mod Receipts
pub mod Unread
use cryptis_dchat_project.Prelude.{
  ℕ, ◌+◌, ◌==◌, if◌then◌else◌, Bool, true, false, not, ◌&&◌, ◌||◌, Option, none, some, List, [],
  ◌∷◌, filter, codes,
}

pub record Thread : Type 0 where
  pub id : ℕ
  pub is_group : Bool
  pub muted : Bool
  pub unread : ℕ
  pub key_epoch : ℕ
  pub rotation_pending : Bool
  pub peer_last_read : ℕ
  pub peer_last_delivered : ℕ
  pub prefix : List ℕ
  pub preview : List ℕ

-- What the server tells of a chat.
pub record Told : Type 0 where
  pub id : ℕ
  pub is_group : Bool
  pub muted : Bool
  pub unread : ℕ
  pub key_epoch : ℕ
  pub rotation_pending : Bool
  pub peer_last_read : ℕ
  pub peer_last_delivered : ℕ
  pub has_message : Bool

-- `threadById`
unfoldable pub find_thread : ℕ → List Thread → Option Thread
find_thread id [] = none
find_thread id (t ∷ ts) = if t.id == id then some t else find_thread id ts

-- A change of the chat that `threadById` finds.
unfoldable pub change_thread : ℕ → (Thread → Thread) → List Thread → List Thread
change_thread id f [] = []
change_thread id f (t ∷ ts) = if t.id == id then f t ∷ ts else t ∷ change_thread id f ts

unfoldable pub old_prefix : Option Thread → List ℕ
old_prefix none = []
old_prefix (some t) = t.prefix

-- The preview that was shown, or three dots for a chat with a message, or a text for one without.
unfoldable pub old_preview : Bool → Option Thread → List ℕ
old_preview true none = 8230 ∷ []
old_preview false none = codes "No messages yet"
old_preview has_message (some t) = elim t.preview [
  | [] ↦ if has_message then 8230 ∷ [] else codes "No messages yet"
  | ◌∷◌ c cs ↦ c ∷ cs
]

unfoldable pub to_thread : Told → Option Thread → Thread
unfolding old_prefix old_preview
to_thread t prev = record {
  id = t.id;
  is_group = t.is_group;
  muted = t.muted;
  unread = t.unread;
  key_epoch = t.key_epoch;
  rotation_pending = t.rotation_pending;
  peer_last_read = t.peer_last_read;
  peer_last_delivered = t.peer_last_delivered;
  prefix = old_prefix prev;
  preview = old_preview t.has_message prev;
}

unfoldable pub to_threads : List Told → List Thread → List Thread
unfolding to_thread find_thread
to_threads [] old = []
to_threads (t ∷ told) old = to_thread t (find_thread t.id old) ∷ to_threads told old

-- `state.threads`, `threadsRev`, and whether a list was shown.
pub record Lists : Type 0 where
  pub threads : List Thread
  pub threads_rev : ℕ
  pub threads_loaded : Bool

-- A request for the list: its number is the new `threadsRev`.
unfoldable pub load_threads : Lists → Lists
load_threads s = record s { threads_rev = s.threads_rev + 1 }

-- The reply to the request of a number.
unfoldable pub take_list : ℕ → List Told → Lists → Lists
unfolding to_threads
take_list rev told s =
    if rev == s.threads_rev
    then record s { threads = to_threads told s.threads; threads_loaded = true }
    else s

-- `bumpThread`
unfoldable pub bump_thread : ℕ → List Thread → List Thread
unfolding find_thread
bump_thread id ts = elim (find_thread id ts) [
  | none ↦ ts
  | some t ↦ t ∷ filter (λ u. not (u.id == id)) ts
]

unfoldable pub clear_unread : Thread → Thread
clear_unread t = record t { unread = 0 }

-- `markReadSoon` when its timer fires, on a page that is hidden or not.
unfoldable pub mark_read : Bool → Option ℕ → ℕ → List Thread → List Thread
unfolding change_thread clear_unread
mark_read hidden active id ts = if hidden then ts else elim active [
  | none ↦ ts
  | some a ↦ if a == id then change_thread id clear_unread ts else ts
]
