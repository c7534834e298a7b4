-- ===== src/Examples/Threads.antt =====
-- The theorems on the list of chats at concrete frames and replies.
use cryptis_dchat_project.Prelude.{
  ◌≡◌, refl, true, false, none, some, [], ◌∷◌, List, ℕ, Bool, arith, codes,
}
use cryptis_dchat_project.Threads.{Thread, Told, find_thread, load_threads, take_list}
use cryptis_dchat_project.Threads.Frames.{
  Live, Frame, message_read, message_delivered, rotation_applied, after_frames,
}
use cryptis_dchat_project.Threads.Latest.{
  Watched, rev_of, IsCurrent, here, next, asked, Reach-take_list,
}
use cryptis_dchat_project.Threads.Receipts.{
  largest, read_by, delivered_by, epoch_by, after_frames-counters,
}
use cryptis_dchat_project.Threads.Unread.{Arrival, after_messages, after_messages-unread, unseen}

abbrev first_thread : Thread
first_thread = record {
  id = 7;
  is_group = true;
  muted = false;
  unread = 2;
  key_epoch = 1;
  rotation_pending = true;
  peer_last_read = 3;
  peer_last_delivered = 4;
  prefix = [];
  preview = [];
}

abbrev told_thread : Told
told_thread = record {
  id = 7;
  is_group = true;
  muted = false;
  unread = 0;
  key_epoch = 1;
  rotation_pending = false;
  peer_last_read = 3;
  peer_last_delivered = 4;
  has_message = true;
}

abbrev first_watched : Watched
first_watched = record {
  lists = record { threads = []; threads_rev = 0; threads_loaded = false };
  sent = [];
  shown = 0;
}

-- Two requests, of which the second one is answered first.
abbrev second_watched : Watched
second_watched = record {
  lists =
      take_list 2 (told_thread ∷ [])
        (record { threads = []; threads_rev = 2; threads_loaded = false });
  sent = 2 ∷ 1 ∷ [];
  shown = 2;
}

second_watched-IsCurrent : IsCurrent second_watched
unfolding take_list rev_of
second_watched-IsCurrent = (λ place rev has. ground (arith, has), omega arith)

-- A third request is sent before the reply to the first one comes.
abbrev third_asked : Watched
third_asked = record second_watched {
  lists = load_threads second_watched.lists;
  sent = (load_threads second_watched.lists).threads_rev ∷ 2 ∷ 1 ∷ [];
}

Reach-take_list_example : take_list 1 [] third_asked.lists ≡ third_asked.lists
unfolding rev_of
Reach-take_list_example =
    Reach-take_list {v = second_watched} {w = third_asked} 1 1 [] (next here (asked second_watched))
      second_watched-IsCurrent (omega arith) refl

abbrev live_page : Live
live_page = record {
  user_id = 1;
  device = some 5;
  is_online = false;
  threads = first_thread ∷ [];
  active_thread = none;
  messages = [];
  typing = [];
  members = [];
}

-- Receipts out of order, one of them the account's own.
abbrev some_frames : List (ℕ × Frame)
some_frames =
    (10, message_read 7 2 9)
    ∷ (11, message_delivered 7 2 6)
    ∷ (12, message_read 7 1 20)
    ∷ (13, rotation_applied 7 2)
    ∷ []

after_frames-counters_example :
    (u : Thread) × (find_thread 7 (after_frames some_frames live_page).threads ≡ some u)
    × ((u.peer_last_read ≡ 9) × (u.peer_last_delivered ≡ 9) × (u.key_epoch ≡ 2))
unfolding largest read_by delivered_by epoch_by find_thread
after_frames-counters_example = after_frames-counters some_frames 7 live_page first_thread refl

abbrev arrival : Bool → Arrival
arrival mine = record {
  thread = 7;
  mine = mine;
  bad = false;
  fresh = false;
  stale = false;
  muted = false;
  hidden = true;
  prefix = [];
  preview = codes "hello";
}

after_messages-unread_example :
    (u : Thread) × (find_thread 7
        (after_messages (arrival false ∷ arrival true ∷ []) live_page).threads
      ≡ some u)
    × (u.unread ≡ 3)
unfolding unseen find_thread
after_messages-unread_example =
    after_messages-unread (arrival false ∷ arrival true ∷ []) 7 live_page first_thread refl
