-- ===== src/Socket/Backoff.antt =====
-- Lost connections of backend/static/js/lib/ws.js, and the delays before the next.
use cryptis_dchat_project.Prelude.{
  ℕ, suc, ◌+◌, ◌-◌, ◌<◌, ◌≡◌, refl, ap, ◌∙◌, sym, ◌==◌, false, some, List, [], ◌∷◌, ◌++◌,
  append_assoc, append-nil, length, if◌then◌else◌, arith, All,
}
use cryptis_dchat_project.Socket.{Link, open_link, reconnect, refused, on_close, fire, delay}

-- A close code that neither ends the session nor asks for a new access token.
abbrev pub IsLoss : ℕ → Type 0
IsLoss code = ((code == 4001) ≡ false) × (refused code ≡ false)

-- One loss: the close code, and the random part of the delay.
pub record Loss : Type 0 where
  pub code : ℕ
  pub random : ℕ

-- A timer fires, if one is set.
unfoldable pub fire_due : Link → Link
unfolding fire
fire_due s = if s.timers == 0 then s else fire s

-- Once for each loss: the socket is closed, and then a timer fires, if there is one.
unfoldable pub lose : List Loss → Link → Link
unfolding on_close fire_due
lose [] s = s
lose (l ∷ losses) s = lose losses (fire_due (on_close (s.made - 1) l.code l.random s))

-- The delays from a number of retries on.
abbrev pub waits : ℕ → List Loss → List ℕ
waits retry [] = []
waits retry (l ∷ losses) = delay retry l.random ∷ waits (retry + 1) losses

module _ (s : Link) (l : Loss) (running : s.stopped ≡ false) (loss : IsLoss l.code) where
  abbrev lost : Link
  lost = fire_due (on_close (s.made - 1) l.code l.random s)

  lost-fields :
      (lost.stopped ≡ false)
      × (lost.retry ≡ s.retry + 1)
      × (lost.delays ≡ s.delays ++ delay s.retry l.random ∷ [])
      × (lost.ws ≡ some s.made)
      × (lost.made ≡ s.made + 1)
      × (lost.timers ≡ s.timers)
  unfolding fire fire_due open_link on_close reconnect
  lost-fields = (
    ground (arith, running, loss),
    ground (arith, running, loss),
    ground (arith, running, loss),
    ground (arith, running, loss),
    ground (arith, running, loss),
    ground (arith, running, loss),
  )

waits-le :
    (retry : ℕ) (losses : List Loss)
    → All (λ (l : Loss). l.random < 400) losses
    → All (λ d. d < 30400) (waits retry losses)
unfolding delay
waits-le retry [] h = tt
waits-le retry (l ∷ losses) h = (omega (arith, h.0), waits-le (retry + 1) losses h.1)

lose-fields :
    (s : Link) (losses : List Loss)
    → s.stopped ≡ false
    → s.ws ≡ some (s.made - 1)
    → All (λ (l : Loss). IsLoss l.code) losses
    → ((lose losses s).delays ≡ s.delays ++ waits s.retry losses)
      × ((lose losses s).ws ≡ some ((lose losses s).made - 1))
      × ((lose losses s).timers ≡ s.timers)
      × ((lose losses s).made ≡ s.made + length losses)
unfolding lose
lose-fields s [] running has losses = (sym (append-nil s.delays), has, refl, omega arith)
lose-fields s (l ∷ rest) running has (loss, losses) =
    let (stopped, retry, delays, ws, made, timers) = lost-fields s l running loss in
    let named = ws ∙ ap some (omega (arith, made)) in
    let (delays', ws', timers', made') =
      lose-fields (lost s l running loss) rest stopped named losses in
    let total = added _ _ _ _ made made' in
    (
      delays'
          ∙ ap (λ r. (lost s l running loss).delays ++ waits r rest) retry
          ∙ ap (λ d. d ++ waits (s.retry + 1) rest) delays
          ∙ append_assoc s.delays (delay s.retry l.random ∷ []) _,
      ws',
      timers' ∙ timers,
      total,
    )
  where
    added : (a b c n : ℕ) → b ≡ a + 1 → c ≡ b + n → c ≡ a + suc n
    added a b c n e f = omega (arith, e, f)

-- However often the connection is lost while the client runs, with close codes that neither end the
-- session nor ask for a new access token, a socket is made once for each loss, by a timer that was set,
-- and `ws` names it; no timer is left over, and the delays are `delay` of the numbers of retries from
-- the first on, each below 30.4 seconds, where the random parts are below 400 milliseconds. `ws` first
-- names the socket made last.
pub lose-reopens :
    (s : Link) (losses : List Loss)
    → s.stopped ≡ false
    → s.ws ≡ some (s.made - 1)
    → All (λ (l : Loss). IsLoss l.code) losses
    → All (λ (l : Loss). l.random < 400) losses
    → ((lose losses s).made ≡ s.made + length losses)
      × ((lose losses s).ws ≡ some ((lose losses s).made - 1))
      × ((lose losses s).timers ≡ s.timers)
      × ((lose losses s).delays ≡ s.delays ++ waits s.retry losses)
      × All (λ d. d < 30400) (waits s.retry losses)
lose-reopens s losses running has codes randoms =
    let (delays, ws, timers, made) = lose-fields s losses running has codes in
    (made, ws, timers, delays, waits-le s.retry losses randoms)
