-- ===== src/Threads/Unread.antt =====
-- A message that came and is decoded: the end of `onIncoming` in backend/static/js/app/data.js, from the preview on.
use cryptis_dchat_project.Prelude.{
  ℕ, ◌+◌, ◌≡◌, ◌≢◌, refl, sym, ap, ◌∙◌, ◌==◌, ==_iff, if◌then◌else◌, Bool, true, false, not, ◌&&◌,
  ◌||◌, Option, none, some, List, [], ◌∷◌, ◌++◌, filter, arith,
}
use cryptis_dchat_project.Threads.{Thread, find_thread, change_thread, bump_thread}
use cryptis_dchat_project.Threads.Frames.{
  Call, mark_read_soon, notify_message, Live, is_same, set_typing,
}
use cryptis_dchat_project.Threads.Receipts.{find-change, find-change_other}

-- A decoded message with the handler's variables: `fresh` for a chat that was loaded for this message, `stale` where
-- a new list of chats came while the message was decoded, so that the handler has an object that is not shown,
-- and that object's `muted`. `hidden` is of the page at that time.
pub record Arrival : Type 0 where
  pub thread : ℕ
  pub mine : Bool
  pub bad : Bool
  pub fresh : Bool
  pub stale : Bool
  pub muted : Bool
  pub hidden : Bool
  pub prefix : List ℕ
  pub preview : List ℕ

-- Whether the chat is on the screen.
unfoldable pub is_watched : Option ℕ → Arrival → Bool
unfolding is_same
is_watched active a = is_same active a.thread && not a.hidden

unfoldable pub note_message : Option ℕ → Arrival → Thread → Thread
unfolding is_watched
note_message active a t = record t {
  prefix = a.prefix;
  preview = a.preview;
  unread =
      if a.mine || is_watched active a
      then t.unread
      else if a.fresh
      then t.unread
      else t.unread + 1;
}

unfoldable pub arrival_calls : Option ℕ → Arrival → List Call
unfolding is_watched
arrival_calls active a =
    (if not a.mine && is_watched active a then mark_read_soon a.thread ∷ [] else [])
    ++ (if not a.mine && (not a.bad && not a.muted) then notify_message a.thread ∷ [] else [])

unfoldable pub take_message : Arrival → Live → Live × List Call
unfolding note_message arrival_calls change_thread bump_thread set_typing
take_message a s = (
  record s {
    threads = bump_thread a.thread (
        if a.stale
        then s.threads
        else change_thread a.thread (note_message s.active_thread a) s.threads);
    typing = if a.mine then s.typing else set_typing a.thread none 0 s.typing;
  },
  arrival_calls s.active_thread a,
)

unfoldable pub after_messages : List Arrival → Live → Live
unfolding take_message
after_messages [] s = s
after_messages (a ∷ rest) s = after_messages rest (take_message a s).0

-- How many of the messages are new ones of others in a chat that is not on the screen.
unfoldable pub unseen : ℕ → Option ℕ → List Arrival → ℕ
unfolding is_watched
unseen id active [] = 0
unseen id active (a ∷ rest) =
    if a.thread == id && (not a.mine && (not (is_watched active a) && (not a.fresh && not a.stale)))
    then unseen id active rest + 1
    else unseen id active rest

find-id : (id : ℕ) (ts : List Thread) (t : Thread) → find_thread id ts ≡ some t → t.id ≡ id
unfolding find_thread
find-id id [] t h = absurd (cc h)
find-id id (u ∷ ts) t h = ground (arith, find-id id ts t)

find-filter :
    (id k : ℕ) (ts : List Thread)
    → k ≢ id
    → find_thread id (filter (λ (u : Thread). not (u.id == k)) ts) ≡ find_thread id ts
unfolding find_thread
find-filter id k [] ne = refl
find-filter id k (u ∷ ts) ne = ground (arith, find-filter id k ts ne)

-- A chat that moves to the top is the same chat.
find-bump : (id k : ℕ) (ts : List Thread) → find_thread id (bump_thread k ts) ≡ find_thread id ts
unfolding bump_thread find_thread
find-bump id k ts = at (find_thread k ts) refl (find_thread id ts) refl
  where
    at :
        (k_found : Option Thread)
        → k_found ≡ find_thread k ts
        → (id_found : Option Thread) → id_found ≡ find_thread id ts
        → find_thread id
            (elim k_found [ none ↦ ts | some t ↦ t ∷ filter (λ (u : Thread). not (u.id == k)) ts ])
          ≡ find_thread id ts
    at none h found g = refl
    at (some t) h found g = ground (arith, find-id k ts t (sym h), find-filter id k ts)

note_message-unread :
    (id : ℕ) (active : Option ℕ) (a : Arrival) (t : Thread)
    → a.stale ≡ false
    → (a.thread == id) ≡ true
    → (note_message active a t).unread ≡ t.unread + unseen id active (a ∷ [])
unfolding note_message unseen
note_message-unread id active a t now same = ground arith

unseen_other :
    (id : ℕ) (active : Option ℕ) (a : Arrival)
    → (a.thread == id) ≡ false
    → unseen id active (a ∷ []) ≡ 0
unfolding unseen
unseen_other id active a ne = rw (ne) refl

unseen_stale :
    (id : ℕ) (active : Option ℕ) (a : Arrival) → a.stale ≡ true → unseen id active (a ∷ []) ≡ 0
unfolding unseen
unseen_stale id active a old = ground arith

unseen_cons :
    (id : ℕ) (active : Option ℕ) (a : Arrival) (rest : List Arrival)
    → unseen id active (a ∷ rest) ≡ unseen id active rest + unseen id active (a ∷ [])
unfolding unseen
unseen_cons id active a rest = ground arith

-- What one message makes of a chat.
take_message-unread :
    (a : Arrival) (id : ℕ) (s : Live) (t : Thread)
    → find_thread id s.threads ≡ some t
    → (u : Thread) × (find_thread id (take_message a s).0.threads ≡ some u)
      × (u.unread ≡ t.unread + unseen id s.active_thread (a ∷ []))
unfolding take_message
take_message-unread a id s t h = at (a.thread == id) refl a.stale refl
  where
    seen : List Thread → Type 0
    seen ts =
        (u : Thread) × (find_thread id (bump_thread a.thread ts) ≡ some u)
        × (u.unread ≡ t.unread + unseen id s.active_thread (a ∷ []))

    at :
        (b : Bool)
        → b ≡ (a.thread == id)
        → (stale : Bool) → stale ≡ a.stale
        → seen (
            if stale
            then s.threads
            else change_thread a.thread (note_message s.active_thread a) s.threads)
    at b same true old = (
      t,
      find-bump id a.thread s.threads ∙ h,
      omega (arith, unseen_stale id s.active_thread a (sym old)),
    )
    at true same false new = (
      note_message s.active_thread a t,
      find-bump id a.thread _
          ∙ (ap
                (λ k.
                  find_thread k (change_thread a.thread (note_message s.active_thread a) s.threads))
                (sym ((==_iff a.thread id).0 (sym same)))
              ∙ find-change a.thread (note_message s.active_thread a) s.threads t (λ u. refl)
                  (ap (λ k. find_thread k s.threads) ((==_iff a.thread id).0 (sym same)) ∙ h)),
      note_message-unread id s.active_thread a t (sym new) (sym same),
    )
    at false same false new = (
      t,
      find-bump id a.thread _
          ∙ (find-change_other id a.thread (note_message s.active_thread a) s.threads (λ u. refl)
                (ground (arith, same))
              ∙ h),
      omega (arith, unseen_other id s.active_thread a (sym same)),
    )

-- After messages that come in any order, a chat has as many more unread ones as there were messages of
-- others in it while it was not on the screen, but for those for which the chat was loaded and those
-- before whose decoding ended a new list of chats came.
pub after_messages-unread :
    (came : List Arrival) (id : ℕ) (s : Live) (t : Thread)
    → find_thread id s.threads ≡ some t
    → (u : Thread) × (find_thread id (after_messages came s).threads ≡ some u)
      × (u.unread ≡ t.unread + unseen id s.active_thread came)
unfolding after_messages unseen
after_messages-unread [] id s t h = (t, h, omega arith)
after_messages-unread (a ∷ rest) id s t h =
    let (u, found, one) = take_message-unread a id s t h in
    let (v, last, more) = after_messages-unread rest id (take_message a s).0 u found in
    (v, last, more ∙ (omega (arith, one, unseen_cons id s.active_thread a rest)))
