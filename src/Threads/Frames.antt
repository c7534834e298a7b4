-- ===== src/Threads/Frames.antt =====
-- The frames of the socket: `onWsFrame` of backend/static/js/app/data.js. What a frame asks of other parts is a
-- list of calls.
use cryptis_dchat_project.Prelude.{
  ℕ, ◌+◌, ◌==◌, max, if◌then◌else◌, Bool, true, false, not, ◌&&◌, ◌||◌, Option, none, some, List,
  [], ◌∷◌, ◌++◌, filter, any, map,
}
use cryptis_dchat_project.Threads.{Thread, find_thread, change_thread}

pub data Frame : Type 0 where
  message_new message_reactions other : Frame
  message_delivered message_read : (thread sender seq : ℕ) → Frame
  message_confirmed : (thread : ℕ) (ids : List ℕ) → Frame
  typing_start typing_stop : (thread user : ℕ) → Frame
  thread_updated :
      (thread removed_user profile_user : Option ℕ) (deleted members_changed : Bool) → Frame
  rotation_requested : (thread actor : ℕ) → Frame
  rotation_applied : (thread epoch : ℕ) → Frame
  session_revoked : (device : Option ℕ) → Frame

pub data Call : Type 0 where
  on_incoming apply_reactions reload_threads_soon session_ended : Call
  load_members sync_tree : (thread : ℕ) → Call
  rotate_group : (thread : ℕ) (preferred : Bool) → Call
  mark_read_soon notify_message : (thread : ℕ) → Call

pub record Typing : Type 0 where
  pub thread : ℕ
  pub user : Option ℕ
  pub until : ℕ

pub record Shown : Type 0 where
  pub thread : ℕ
  pub id : ℕ
  pub confirmed : Bool

-- What the frames read and change: the account, the device in the access token, none where it cannot be read, and
-- parts of `state`. `members` has the users of the chats whose members are loaded.
pub record Live : Type 0 where
  pub user_id : ℕ
  pub device : Option ℕ
  pub is_online : Bool
  pub threads : List Thread
  pub active_thread : Option ℕ
  pub messages : List Shown
  pub typing : List Typing
  pub members : List (ℕ × List ℕ)

unfoldable pub is_same : Option ℕ → ℕ → Bool
is_same none n = false
is_same (some m) n = m == n

unfoldable pub set_read : ℕ → Thread → Thread
set_read seq t = record t {
  peer_last_read = max t.peer_last_read seq;
  peer_last_delivered = max t.peer_last_delivered seq;
}

unfoldable pub set_delivered : ℕ → Thread → Thread
set_delivered seq t = record t { peer_last_delivered = max t.peer_last_delivered seq }

unfoldable pub set_epoch : ℕ → Thread → Thread
set_epoch epoch t = record t { key_epoch = max t.key_epoch epoch; rotation_pending = false }

unfoldable pub confirm : ℕ → List ℕ → Shown → Shown
confirm thread ids m =
    if m.thread == thread && any (λ id. id == m.id) ids then record m { confirmed = true } else m

unfoldable pub set_typing : ℕ → Option ℕ → ℕ → List Typing → List Typing
set_typing thread user until ts =
    record { thread = thread; user = user; until = until }
    ∷ filter (λ (t : Typing). not (t.thread == thread)) ts

-- The chats with loaded members that have a user.
unfoldable pub groups_of : ℕ → List (ℕ × List ℕ) → List Call
groups_of user [] = []
groups_of user ((thread, users) ∷ rest) =
    if any (λ u. u == user) users
    then load_members thread ∷ groups_of user rest
    else groups_of user rest

unfoldable pub profile_calls : Option ℕ → List (ℕ × List ℕ) → List Call
unfolding groups_of
profile_calls none members = []
profile_calls (some user) members = groups_of user members

unfoldable pub members_calls : Option ℕ → Bool → List (ℕ × List ℕ) → List Call
members_calls none members_changed members = []
members_calls (some thread) members_changed members =
    if members_changed && any (λ (m : ℕ × List ℕ). m.0 == thread) members
    then load_members thread ∷ []
    else []

unfoldable pub left_thread : Option ℕ → Option ℕ → Option ℕ
left_thread none thread = none
left_thread (some active) thread = elim thread [
  | none ↦ some active
  | some t ↦ if active == t then none else some active
]

unfoldable pub tree_calls : Option Thread → List Call
tree_calls none = []
tree_calls (some t) = if t.is_group then sync_tree t.id ∷ [] else []

unfoldable pub revoked_calls : Option ℕ → Option ℕ → List Call
revoked_calls none device = []
revoked_calls (some current) none = session_ended ∷ []
revoked_calls (some current) (some device) = if device == current then session_ended ∷ [] else []

-- The `switch`; a revoked device is none for all of the account's devices.
unfoldable pub take_frame : ℕ → Frame → Live → Live × List Call
unfolding is_same set_read set_delivered set_epoch confirm set_typing profile_calls members_calls
    left_thread tree_calls revoked_calls change_thread find_thread
take_frame now message_new s = (s, on_incoming ∷ [])
take_frame now message_reactions s = (s, apply_reactions ∷ [])
take_frame now other s = (s, [])
take_frame now (message_delivered thread sender seq) s = (
  record s {
    threads =
        if sender == s.user_id
        then s.threads
        else change_thread thread (set_delivered seq) s.threads;
  },
  [],
)
take_frame now (message_read thread sender seq) s = (
  record s {
    threads =
        if sender == s.user_id then s.threads else change_thread thread (set_read seq) s.threads;
  },
  [],
)
take_frame now (message_confirmed thread ids) s =
    (record s { messages = map (confirm thread ids) s.messages }, [])
take_frame now (typing_start thread user) s =
    (record s { typing = set_typing thread (some user) (now + 6000) s.typing }, [])
take_frame now (typing_stop thread user) s =
    (record s { typing = set_typing thread (some user) 0 s.typing }, [])
take_frame now (thread_updated thread removed_user profile_user deleted members_changed) s = (
  record s {
    active_thread =
        if is_same removed_user s.user_id || deleted
        then left_thread s.active_thread thread
        else s.active_thread;
  },
  members_calls thread members_changed s.members
      ++ (profile_calls profile_user s.members ++ reload_threads_soon ∷ []),
)
take_frame now (rotation_requested thread actor) s =
    (s, rotate_group thread (actor == s.user_id) ∷ reload_threads_soon ∷ [])
take_frame now (rotation_applied thread epoch) s = (
  record s { threads = change_thread thread (set_epoch epoch) s.threads },
  tree_calls (find_thread thread s.threads) ++ reload_threads_soon ∷ [],
)
take_frame now (session_revoked device) s = (s, revoked_calls s.device device)

-- `onWsFrame`
unfoldable pub on_ws_frame : ℕ → Frame → Live → Live × List Call
unfolding take_frame
on_ws_frame now f s = take_frame now f (record s { is_online = true })

-- Frames one after the other, each with its time.
unfoldable pub after_frames : List (ℕ × Frame) → Live → Live
unfolding on_ws_frame
after_frames [] s = s
after_frames ((now, f) ∷ rest) s = after_frames rest (on_ws_frame now f s).0
