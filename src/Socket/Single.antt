-- ===== src/Socket/Single.antt =====
-- How many sockets backend/static/js/lib/ws.js has at a time.
use cryptis_dchat_project.Prelude.{
  ℕ, suc, ◌+◌, ◌-◌, ◌≤◌, ◌<◌, ◌≡◌, refl, ap, ◌∙◌, ◌==◌, Bool, true, false, Bool-cases, inl, inr,
  Option, none, some, List, [], ◌∷◌, arith, length, All, String, str_eq, if-holds,
}
use cryptis_dchat_project.Socket.{
  Link, send, open_link, on_open, on_message, beat, reconnect, refused, on_close, refreshed, fire,
  start, stop, remove, is_in,
}

-- No socket that is not closed, no timer and no refresh on the way.
abbrev pub IsIdle : Link → Type 0
IsIdle s = (s.alive ≡ []) × (s.timers ≡ 0) × (s.refreshing ≡ 0)

-- What may happen next. The browser closes a socket that was not closed, a timer fires that was set, and
-- `start` is only called when nothing is left of an earlier run.
pub data Step : Link → Link → Type 0 where
  opened : (s : Link) (id : ℕ) → Step s (on_open id s)
  received : (s : Link) (event : String) → Step s (on_message event s)
  beaten : (s : Link) → Step s (beat s)
  closed :
      (s : Link) (id code random : ℕ) → is_in id s.alive ≡ true → Step s (on_close id code random s)
  answered : (s : Link) (ok : Bool) (random : ℕ) → 0 < s.refreshing → Step s (refreshed ok random s)
  fired : (s : Link) → 0 < s.timers → Step s (fire s)
  started : (s : Link) → IsIdle s → Step s (start s)
  stopping : (s : Link) → Step s (stop s)

pub data Reach (first : Link) : Link → Type 0 where
  begin : Reach first first
  then_ : {s t : Link} → Reach first s → Step s t → Reach first t

-- At most one of: a socket that is not closed, a timer, a refresh. While the client runs, a socket that
-- is not closed is the one of `ws`.
abbrev SingleAt : List ℕ → ℕ → ℕ → Bool → Option ℕ → Type 0
SingleAt alive timers refreshing stopped ws =
    (length alive + timers + refreshing ≤ 1) × (stopped ≡ false → All (λ id. ws ≡ some id) alive)

abbrev pub IsSingle : Link → Type 0
IsSingle s = SingleAt s.alive s.timers s.refreshing s.stopped s.ws

length-remove :
    (id : ℕ) (ids : List ℕ) → is_in id ids ≡ true → length (remove id ids) + 1 ≡ length ids
unfolding is_in remove
length-remove id [] h = absurd (cc h)
length-remove id (i ∷ ids) h = ground (arith, length-remove id ids)

empty : (ids : List ℕ) → length ids ≡ 0 → ids ≡ []
empty [] h = refl
empty (i ∷ ids) h = absurd (omega arith)

-- The handlers that leave the sockets and timers as they are.
abbrev Quiet : Link → Link → Type 0
Quiet s t =
    (t.alive ≡ s.alive)
    × (t.timers ≡ s.timers)
    × (t.refreshing ≡ s.refreshing)
    × (t.stopped ≡ s.stopped)
    × (t.ws ≡ s.ws)

Quiet-IsSingle : (s t : Link) → Quiet s t → IsSingle s → IsSingle t
Quiet-IsSingle s t (a, m, r, p, w) h = rw (a, m, r, p, w) h

send-Quiet : (event : String) (s : Link) → Quiet s (send event s).0
unfolding send
send-Quiet event s = (ground arith, ground arith, ground arith, ground arith, ground arith)

on_message-Quiet : (event : String) (s : Link) → Quiet s (on_message event s)
unfolding on_message
on_message-Quiet event s =
    if-holds (Quiet s) (str_eq event "ready") _ _
      (λ e. send-Quiet "heartbeat" (record s { retry = 0; hb = true }))
      (λ e. (refl, refl, refl, refl, refl))

beat-Quiet : (s : Link) → Quiet s (beat s)
unfolding beat
beat-Quiet s =
    if-holds (Quiet s) s.hb _ _ (λ e. send-Quiet "heartbeat" s)
      (λ e. (refl, refl, refl, refl, refl))

-- Where nothing is left, `open` makes the one socket.
open_link-IsSingle : (s : Link) → IsIdle s → IsSingle (open_link s)
unfolding open_link
open_link-IsSingle s (a, m, r) = elim (Bool-cases s.stopped) [
  | inl off ↦ rw (off, a, m, r) (omega arith, λ e. tt)
  | inr on ↦ rw (on, a, m, r) (omega arith, λ e. (refl, tt))
]

start-IsSingle : (s : Link) → IsIdle s → IsSingle (start s)
unfolding start
start-IsSingle s idle = open_link-IsSingle (record s { stopped = false; retry = 0 }) idle

fire-IsSingle : (s : Link) → 0 < s.timers → IsSingle s → IsSingle (fire s)
unfolding fire
fire-IsSingle s some_ (one, owned) =
    open_link-IsSingle (record s { timers = s.timers - 1 })
      (empty s.alive (omega arith), omega arith, omega arith)

refreshed-IsSingle :
    (s : Link) (ok : Bool) (random : ℕ)
    → 0 < s.refreshing
    → IsSingle s
    → IsSingle (refreshed ok random s)
unfolding refreshed reconnect
refreshed-IsSingle s true random some_ (one, owned) = (omega arith, owned)
refreshed-IsSingle s false random some_ (one, owned) = (omega arith, owned)

stop-fields :
    (s : Link)
    → ((stop s).alive ≡ s.alive)
      × ((stop s).timers ≡ s.timers)
      × ((stop s).refreshing ≡ s.refreshing)
      × ((stop s).stopped ≡ true)
unfolding stop
stop-fields s = (ground arith, ground arith, ground arith, ground arith)

stop-IsSingle : (s : Link) → IsSingle s → IsSingle (stop s)
stop-IsSingle s (one, owned) =
    let (a, m, r, p) = stop-fields s in (omega (arith, ap length a, m, r), λ e. absurd (cc (e, p)))

on_close-IsSingle :
    (s : Link) (id code random : ℕ)
    → is_in id s.alive ≡ true
    → IsSingle s
    → IsSingle (on_close id code random s)
unfolding on_close reconnect
on_close-IsSingle s id code random live (one, owned) =
    let fewer = length-remove id s.alive live in
    let none_left = empty (remove id s.alive) (omega (arith, fewer)) in
    let nothing : (ws : Option ℕ) → All (λ i. ws ≡ some i) (remove id s.alive) =
      λ ws. rw none_left tt in
    if-holds IsSingle s.stopped _ _ (λ e. (omega (arith, fewer), λ f. nothing none))
      (λ e.
        if-holds IsSingle (code == 4001) _ _ (λ f. (omega (arith, fewer), λ g. nothing none))
          (λ f.
            if-holds IsSingle (refused code) _ _ (λ g. (omega (arith, fewer), λ g. nothing none))
              (λ g. (omega (arith, fewer), λ g. nothing none))))

Step-IsSingle : {s t : Link} → Step s t → IsSingle s → IsSingle t
Step-IsSingle (opened s id) h =
    Quiet-IsSingle (record s { connected = id ∷ s.connected }) (on_open id s)
      (unfold on_open in send-Quiet "auth" (record s { connected = id ∷ s.connected })) h
Step-IsSingle (received s event) h =
    Quiet-IsSingle s (on_message event s) (on_message-Quiet event s) h
Step-IsSingle (beaten s) h = Quiet-IsSingle s (beat s) (beat-Quiet s) h
Step-IsSingle (closed s id code random live) h = on_close-IsSingle s id code random live h
Step-IsSingle (answered s ok random some_) h = refreshed-IsSingle s ok random some_ h
Step-IsSingle (fired s some_) h = fire-IsSingle s some_ h
Step-IsSingle (started s idle) h = start-IsSingle s idle
Step-IsSingle (stopping s) h = stop-IsSingle s h

-- If `start` is only called when nothing is left of an earlier run, then at every time there is at most
-- one of a socket that is not closed, a timer and a refresh, and the socket is the one that `ws` names
-- while the client runs.
pub Reach-IsSingle : {s t : Link} → Reach s t → IsSingle s → IsSingle t
Reach-IsSingle begin h = h
Reach-IsSingle (then_ r step) h = Step-IsSingle step (Reach-IsSingle r h)

stop-made : (s : Link) → (stop s).made ≡ s.made
unfolding stop
stop-made s = ground arith

-- Where a timer is set when the client is stopped, as after a connection was lost, a start before the
-- timer fires gives two sockets: `stop` leaves the timer, and `open` looks only at `stopped`.
pub start-two_sockets :
    (s : Link) (n : ℕ)
    → s.timers ≡ suc n
    → ((fire (start (stop s))).alive ≡ (s.made + 1) ∷ s.made ∷ s.alive)
      × ((start (stop s)).timers ≡ suc n)
unfolding fire start open_link
start-two_sockets s n set = let (a, m, r, p) = stop-fields s in (rw (stop-made s, a), m ∙ set)
