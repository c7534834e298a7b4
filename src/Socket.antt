-- ===== src/Socket.antt =====
-- The socket of backend/static/js/lib/ws.js: its variables, the sockets and timers that the browser
-- holds for it, and its handlers.
pub mod Single
pub mod Backoff
use cryptis_dchat_project.Prelude.{
  ℕ, suc, ◌+◌, ◌-◌, ◌*◌, ◌^◌, min, ◌==◌, if◌then◌else◌, Bool, true, false, not, ◌||◌, Option, none,
  some, List, [], ◌∷◌, ◌++◌, any, String, str_eq,
}

-- `ws` (the number of a socket), whether the interval `hb` runs, `retry` and `stopped`; the timers of
-- `setTimeout(open, delay)` with the refreshes that `onclose` awaits; how many sockets were made, which
-- of them are not closed, and which are open; the frames sent, with their socket; the delays that were
-- set; and whether `onRevoked` was called.
pub record Link : Type 0 where
  pub ws : Option ℕ
  pub hb : Bool
  pub retry : ℕ
  pub stopped : Bool
  pub timers : ℕ
  pub refreshing : ℕ
  pub made : ℕ
  pub alive : List ℕ
  pub connected : List ℕ
  pub sent : List (ℕ × String)
  pub delays : List ℕ
  pub revoked : Bool

unfoldable pub is_in : ℕ → List ℕ → Bool
is_in id ids = any (λ i. i == id) ids

-- The list without the first of a number.
unfoldable pub remove : ℕ → List ℕ → List ℕ
remove id [] = []
remove id (i ∷ ids) = if i == id then ids else i ∷ remove id ids

-- `send(event, fields)`; `readyState` is 1 while the socket is open.
unfoldable pub send : String → Link → Link × Bool
unfolding is_in
send event s = elim s.ws [
  | none ↦ (s, false)
  | some id ↦
      if is_in id s.connected
      then (record s { sent = s.sent ++ (id, event) ∷ [] }, true)
      else (s, false)
]

-- `open()`
unfoldable pub open_link : Link → Link
open_link s =
    if s.stopped
    then s
    else record s { ws = some s.made; made = s.made + 1; alive = s.made ∷ s.alive }

-- `ws.onopen`
unfoldable pub on_open : ℕ → Link → Link
unfolding send
on_open id s = (send "auth" (record s { connected = id ∷ s.connected })).0

-- `ws.onmessage` for a frame that was decoded.
unfoldable pub on_message : String → Link → Link
unfolding send
on_message event s =
    if str_eq event "ready" then (send "heartbeat" (record s { retry = 0; hb = true })).0 else s

-- The interval.
unfoldable pub beat : Link → Link
unfolding send
beat s = if s.hb then (send "heartbeat" s).0 else s

-- `Math.min(30000, 500 * 2 ** retry) + Math.random() * 400`, in whole milliseconds as `setTimeout` takes them; `random`
-- is the last part, below 400.
unfoldable pub delay : (retry random : ℕ) → ℕ
delay retry random = min 30000 (500 * 2 ^ retry) + random

-- The end of `ws.onclose`.
unfoldable pub reconnect : (random : ℕ) → Link → Link
unfolding delay
reconnect random s = record s {
  timers = s.timers + 1;
  retry = s.retry + 1;
  delays = s.delays ++ delay s.retry random ∷ [];
}

unfoldable pub refused : ℕ → Bool
refused code = code == 4003 || code == 1008

-- `ws.onclose` of a socket, up to the `await` of the refresh.
unfoldable pub on_close : ℕ → ℕ → (random : ℕ) → Link → Link
unfolding reconnect refused remove
on_close id code random s =
    let closed = record s {
      hb = false;
      ws = none;
      alive = remove id s.alive;
      connected = remove id s.connected;
    } in
    if s.stopped
    then closed
    else if code == 4001
    then record closed { revoked = true }
    else if refused code
    then record closed { refreshing = s.refreshing + 1 }
    else reconnect random closed

-- What follows the `await`: a refresh that fails ends the handler.
unfoldable pub refreshed : Bool → (random : ℕ) → Link → Link
unfolding reconnect
refreshed ok random s =
    let done = record s { refreshing = s.refreshing - 1 } in
    if ok then reconnect random done else done

-- The timer.
unfoldable pub fire : Link → Link
unfolding open_link
fire s = open_link (record s { timers = s.timers - 1 })

unfoldable pub start : Link → Link
unfolding open_link
start s = open_link (record s { stopped = false; retry = 0 })

-- `stop()`: a socket that is closing stays until its `onclose`, and a timer stays too.
unfoldable pub stop : Link → Link
unfolding remove
stop s =
    let idle = record s { stopped = true; hb = false; ws = none } in
    elim s.ws [ none ↦ idle | some id ↦ record idle { connected = remove id s.connected } ]
