-- ===== src/Threads/Receipts.antt =====
-- The counters of a chat after frames in any order: `onWsFrame` of backend/static/js/app/data.js.
use cryptis_dchat_project.Prelude.{
  ℕ, ◌≡◌, ◌≢◌, refl, sym, ap, ◌∙◌, ◌==◌, ==_iff, max, if◌then◌else◌, Bool, true, false, not, ◌&&◌,
  some, List, [], ◌∷◌, arith,
}
use cryptis_dchat_project.Threads.{Thread, find_thread, change_thread}
use cryptis_dchat_project.Threads.Frames.{
  Frame, message_delivered, message_read, rotation_applied, Live, set_read, set_delivered,
  set_epoch, on_ws_frame, after_frames,
}

-- What a frame says of a chat's messages that the others have read or got, and of the epoch of its key; 0 for nothing.
unfoldable pub read_by : ℕ → ℕ → Frame → ℕ
read_by user id (message_read thread sender seq) =
    if thread == id && not (sender == user) then seq else 0
read_by user id f = 0

unfoldable pub delivered_by : ℕ → ℕ → Frame → ℕ
delivered_by user id (message_read thread sender seq) =
    if thread == id && not (sender == user) then seq else 0
delivered_by user id (message_delivered thread sender seq) =
    if thread == id && not (sender == user) then seq else 0
delivered_by user id f = 0

unfoldable pub epoch_by : ℕ → Frame → ℕ
epoch_by id (rotation_applied thread epoch) = if thread == id then epoch else 0
epoch_by id f = 0

-- The largest of what frames say.
unfoldable pub largest : (Frame → ℕ) → List (ℕ × Frame) → ℕ
largest f [] = 0
largest f ((now, x) ∷ rest) = max (f x) (largest f rest)

pub find-change :
    (id : ℕ) (f : Thread → Thread) (ts : List Thread) (t : Thread)
    → ((u : Thread) → (f u).id ≡ u.id)
    → find_thread id ts ≡ some t
    → find_thread id (change_thread id f ts) ≡ some (f t)
unfolding find_thread change_thread
find-change id f [] t keeps h = absurd (cc h)
find-change id f (u ∷ ts) t keeps h = ground (arith, keeps u, find-change id f ts t keeps)

pub find-change_other :
    (id k : ℕ) (f : Thread → Thread) (ts : List Thread)
    → ((u : Thread) → (f u).id ≡ u.id)
    → k ≢ id
    → find_thread id (change_thread k f ts) ≡ find_thread id ts
unfolding find_thread change_thread
find-change_other id k f [] keeps ne = refl
find-change_other id k f (u ∷ ts) keeps ne =
    ground (arith, keeps u, find-change_other id k f ts keeps ne)

-- A chat and what a frame makes of it.
abbrev Counts : Thread → Thread → ℕ → ℕ → ℕ → Type 0
Counts t u read delivered epoch =
    (u.peer_last_read ≡ max t.peer_last_read read)
    × (u.peer_last_delivered ≡ max t.peer_last_delivered delivered)
    × (u.key_epoch ≡ max t.key_epoch epoch)

abbrev Becomes : ℕ → Thread → List Thread → ℕ → ℕ → ℕ → Type 0
Becomes id t ts read delivered epoch =
    (u : Thread) × (find_thread id ts ≡ some u) × Counts t u read delivered epoch

same-Becomes :
    (id : ℕ) (t : Thread) (ts : List Thread) → find_thread id ts ≡ some t → Becomes id t ts 0 0 0
same-Becomes id t ts h = (t, h, (omega arith, omega arith, omega arith))

user-on_ws_frame : (now : ℕ) (f : Frame) (s : Live) → (on_ws_frame now f s).0.user_id ≡ s.user_id
unfolding on_ws_frame
user-on_ws_frame now (message_read thread sender seq) s = refl
user-on_ws_frame now f s = refl

-- A change of one chat that is skipped by a test.
guarded-Becomes :
    (skip : Bool) (thread id : ℕ) (f : Thread → Thread) (ts : List Thread) (t : Thread) (r d e : ℕ)
    → ((u : Thread) → (f u).id ≡ u.id)
    → Counts t (f t) r d e
    → find_thread id ts ≡ some t
    → Becomes id t
        (if skip then ts else change_thread thread f ts)
        (if thread == id && not skip then r else 0)
        (if thread == id && not skip then d else 0)
        (if thread == id && not skip then e else 0)
guarded-Becomes skip thread id f ts t r d e keeps counts h = at (thread == id) skip refl
  where
    zero_at :
        (b skip : Bool)
        → (b && not skip) ≡ false
        → find_thread id (if skip then ts else change_thread thread f ts) ≡ some t
        → Becomes id t
            (if skip then ts else change_thread thread f ts)
            (if b && not skip then r else 0)
            (if b && not skip then d else 0)
            (if b && not skip then e else 0)
    zero_at b skip no_ k = rw (no_) (t, k, (omega arith, omega arith, omega arith))

    at :
        (b skip : Bool)
        → b ≡ (thread == id)
        → Becomes id t
            (if skip then ts else change_thread thread f ts)
            (if b && not skip then r else 0)
            (if b && not skip then d else 0)
            (if b && not skip then e else 0)
    at true true same = zero_at true true refl h
    at false true same = zero_at false true refl h
    at false false same =
        zero_at false false refl (find-change_other id thread f ts keeps (ground (arith, same)) ∙ h)
    at true false same = (
      f t,
      ap (λ k. find_thread k (change_thread thread f ts)) (sym ((==_iff thread id).0 (sym same)))
          ∙ find-change thread f ts t keeps
              (ap (λ k. find_thread k ts) ((==_iff thread id).0 (sym same)) ∙ h),
      counts,
    )

zero_if : (b : Bool) → ◌≡◌ {A = ℕ} (if b then 0 else 0) 0
zero_if true = refl
zero_if false = refl

and_true : (b : Bool) → (b && true) ≡ b
and_true true = refl
and_true false = refl

on_ws_frame-Becomes :
    (now id : ℕ) (f : Frame) (s : Live) (t : Thread)
    → find_thread id s.threads ≡ some t
    → Becomes id t
        (on_ws_frame now f s).0.threads
        (read_by s.user_id id f)
        (delivered_by s.user_id id f)
        (epoch_by id f)
unfolding on_ws_frame read_by delivered_by epoch_by set_read set_delivered set_epoch
on_ws_frame-Becomes now id (message_read thread sender seq) s t h =
    let (u, found, counts) =
      guarded-Becomes (sender == s.user_id) thread id (set_read seq) s.threads t seq seq 0
        (λ v. refl) (refl, refl, omega arith) h in
    (
      u,
      found,
      (
        counts.0,
        counts.1,
        counts.2 ∙ ap (max t.key_epoch) (zero_if (thread == id && not (sender == s.user_id))),
      ),
    )
on_ws_frame-Becomes now id (message_delivered thread sender seq) s t h =
    let (u, found, counts) =
      guarded-Becomes (sender == s.user_id) thread id (set_delivered seq) s.threads t 0 seq 0
        (λ v. refl) (omega arith, refl, omega arith) h in
    (
      u,
      found,
      (
        counts.0 ∙ ap (max t.peer_last_read) (zero_if (thread == id && not (sender == s.user_id))),
        counts.1,
        counts.2 ∙ ap (max t.key_epoch) (zero_if (thread == id && not (sender == s.user_id))),
      ),
    )
on_ws_frame-Becomes now id (rotation_applied thread epoch) s t h =
    let (u, found, counts) =
      guarded-Becomes false thread id (set_epoch epoch) s.threads t 0 0 epoch (λ v. refl)
        (omega arith, omega arith, refl) h in
    (
      u,
      found,
      (
        counts.0 ∙ ap (max t.peer_last_read) (zero_if (thread == id && true)),
        counts.1 ∙ ap (max t.peer_last_delivered) (zero_if (thread == id && true)),
        counts.2 ∙ ap (λ b. max t.key_epoch (if b then epoch else 0)) (and_true (thread == id)),
      ),
    )
on_ws_frame-Becomes now id f s t h = same-Becomes id t s.threads h

-- After frames of the socket in any order, the counts of a chat's messages that the others have read and
-- got, and the epoch of its key, are the largest of what was known and what the frames of others say,
-- where a message that is read is also got.
pub after_frames-counters :
    (frames : List (ℕ × Frame)) (id : ℕ) (s : Live) (t : Thread)
    → find_thread id s.threads ≡ some t
    → (u : Thread) × (find_thread id (after_frames frames s).threads ≡ some u)
      × ((u.peer_last_read ≡ max t.peer_last_read (largest (read_by s.user_id id) frames))
          × (u.peer_last_delivered
              ≡ max t.peer_last_delivered (largest (delivered_by s.user_id id) frames))
          × (u.key_epoch ≡ max t.key_epoch (largest (epoch_by id) frames)))
unfolding after_frames largest
after_frames-counters [] id s t h = same-Becomes id t s.threads h
after_frames-counters ((now, f) ∷ rest) id s t h =
    let (u, found, one) = on_ws_frame-Becomes now id f s t h in
    let (v, last, more) = after_frames-counters rest id (on_ws_frame now f s).0 u found in
    (
      v,
      last,
      (
        joined t.peer_last_read u.peer_last_read v.peer_last_read _ _ one.0 (
            more.0
            ∙ ap (λ n. max u.peer_last_read (largest (read_by n id) rest))
                (user-on_ws_frame now f s)),
        joined t.peer_last_delivered u.peer_last_delivered v.peer_last_delivered _ _ one.1 (
            more.1
            ∙ ap (λ n. max u.peer_last_delivered (largest (delivered_by n id) rest))
                (user-on_ws_frame now f s)),
        joined t.key_epoch u.key_epoch v.key_epoch _ _ one.2 more.2,
      ),
    )
  where
    joined : (a b c m n : ℕ) → b ≡ max a m → c ≡ max b n → c ≡ max a (max m n)
    joined a b c m n h k = omega arith
