-- ===== src/Examples/Socket.antt =====
-- The theorems on backend/static/js/lib/ws.js at concrete states.
use cryptis_dchat_project.Prelude.{
  List, length, ◌+◌, ◌<◌, ◌-◌, ◌≡◌, refl, true, false, none, some, [], ◌∷◌, ◌++◌, arith, All,
}
use cryptis_dchat_project.Socket.{Link, refused, start, fire, on_close, on_open, on_message}
use cryptis_dchat_project.Socket.Single.{
  IsSingle, started, opened, received, closed, fired, Reach, begin, then_, Reach-IsSingle,
}
use cryptis_dchat_project.Socket.Backoff.{IsLoss, Loss, lose, waits, lose-reopens}

abbrev new_link : Link
new_link = record {
  ws = none;
  hb = false;
  retry = 0;
  stopped = true;
  timers = 0;
  refreshing = 0;
  made = 0;
  alive = [];
  connected = [];
  sent = [];
  delays = [];
  revoked = false;
}

-- A connection that the server closes, and the next one.
abbrev reopened : Link
reopened = fire (on_close 0 1006 7 (on_message "ready" (on_open 0 (start new_link))))

reopens : Reach new_link reopened
unfolding start on_open on_message on_close fire
reopens =
    then_
      (then_
        (then_ (then_ (then_ begin (started new_link (refl, refl, refl))) (opened _ 0))
          (received _ "ready"))
        (closed _ 0 1006 7 refl))
      (fired _ (omega arith))

Reach-IsSingle_example : IsSingle reopened
Reach-IsSingle_example = Reach-IsSingle reopens (omega arith, λ e. absurd (cc e))

-- A connection was lost, and its timer runs.
abbrev waiting : Link
waiting = record new_link { stopped = false; made = 1; retry = 1; timers = 1; delays = 500 ∷ [] }

abbrev running : Link
running = record new_link { ws = some 0; stopped = false; made = 1; alive = 0 ∷ [] }

abbrev two_losses : List Loss
two_losses = record { code = 1006; random = 399 } ∷ record { code = 1001; random = 0 } ∷ []

lose-reopens_example :
    ((lose two_losses running).made ≡ 1 + length two_losses)
    × ((lose two_losses running).ws ≡ some ((lose two_losses running).made - 1))
    × ((lose two_losses running).timers ≡ 0)
    × ((lose two_losses running).delays ≡ [] ++ waits 0 two_losses)
    × All (λ d. d < 30400) (waits 0 two_losses)
lose-reopens_example =
    lose-reopens running two_losses refl refl (losses, (losses', tt))
      (omega arith, (omega arith, tt))
  where
    losses : IsLoss 1006
    losses = unfold refused in (refl, refl)

    losses' : IsLoss 1001
    losses' = unfold refused in (refl, refl)
