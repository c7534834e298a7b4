-- ===== src/Login.antt =====
-- The page of signing in: `waiting`, `reset`, `fail`, `verify`, `tonConnectLogin`, `devLogin` and the handlers of
-- backend/static/js/login.js.
pub mod Waiting
pub mod Once
pub mod Proof
use cryptis_dchat_project.Prelude.{
  ℕ, zero, suc, ◌+◌, if◌then◌else◌, Bool, true, false, not, ◌&&◌, ◌||◌, Option, none, some, List,
  [], ◌∷◌, ◌++◌,
}

-- Where a submit of the form is: it waits for the challenge, for the library of the wallets, for a wallet, for
-- the server's answer to a proof, or for nothing.
pub data Phase : Type 0 where
  asking loading choosing verifying ended : Phase

-- Whether the submit has subscribed to the wallets, `done`, and the proofs that were sent.
pub record Attempt : Type 0 where
  pub phase : Phase
  pub subscribed : Bool
  pub done : Bool
  pub verifies : ℕ

pub data Address : Type 0 where
  app app_pair : Address

-- `waits` is the disabled button; `address` is where the page was sent to, `saved` the item `cx_login`.
pub record Page : Type 0 where
  pub insecure : Bool
  pub waits : Bool
  pub timer : Bool
  pub error : Bool
  pub error_timer : Bool
  pub attempts : List Attempt
  pub saved : Bool
  pub address : Option Address

unfoldable pub first_page : Bool → Page
first_page insecure = record {
  insecure = insecure;
  waits = false;
  timer = false;
  error = false;
  error_timer = false;
  attempts = [];
  saved = false;
  address = none;
}

unfoldable pub waiting : Page → Page
waiting p = record p { error_timer = false; error = false; waits = true; timer = true }

unfoldable pub reset : Page → Page
reset p = record p { timer = false; waits = false }

unfoldable pub fail : Page → Page
unfolding reset
fail p = record (reset p) { error = true; error_timer = true }

-- What a wallet reports: that there is none, a wallet with a proof or one without.
pub data Wallet : Type 0 where
  gone with_proof without_proof : Wallet

pub data Challenge : Type 0 where
  refused for_dev for_wallet : Challenge

pub data Event : Type 0 where
  submitted pair_clicked modal_failed timed_out error_timed_out : Event
  challenged : (attempt : ℕ) → Challenge → Event
  loaded : (attempt : ℕ) (ok : Bool) → Event
  status_changed : (attempt : ℕ) → Wallet → Event
  status_failed : (attempt : ℕ) → Event
  modal_changed : (attempt : ℕ) (cancelled : Bool) → Event
  verified : (attempt : ℕ) (ok : Bool) → Event
  vault_found : (reauth dev exists : Bool) → Event

-- A step of an attempt: what becomes of it, and whether `fail` is called, and whether the page has the tokens.
pub data Outcome : Type 0 where
  goes_on fails signed_in : Outcome

unfoldable pub send_proof : Attempt → Attempt
send_proof a = record a { phase = verifying; verifies = a.verifies + 1 }

unfoldable pub on_challenge : Challenge → Attempt → Attempt × Outcome
unfolding send_proof
on_challenge refused a = (record a { phase = ended }, fails)
on_challenge for_dev a = (send_proof a, goes_on)
on_challenge for_wallet a = (record a { phase = loading }, goes_on)

unfoldable pub on_loaded : Bool → Attempt → Attempt × Outcome
on_loaded ok a =
    if ok
    then (record a { phase = choosing; subscribed = true }, goes_on)
    else (record a { phase = ended }, fails)

unfoldable pub on_status : Wallet → Attempt → Attempt × Outcome
unfolding send_proof
on_status gone a = (a, goes_on)
on_status with_proof a =
    if a.done then (a, goes_on) else (send_proof (record a { done = true }), goes_on)
on_status without_proof a =
    if a.done then (a, goes_on) else (record a { done = true; phase = ended }, fails)

unfoldable pub on_end : Attempt → Attempt × Outcome
on_end a = if a.done then (a, goes_on) else (record a { done = true; phase = ended }, fails)

unfoldable pub on_modal : Bool → Attempt → Attempt × Outcome
unfolding on_end
on_modal cancelled a = if cancelled then on_end a else (a, goes_on)

unfoldable pub on_verified : Bool → Attempt → Attempt × Outcome
on_verified ok a = (record a { phase = ended }, if ok then signed_in else fails)

unfoldable pub is_at : Phase → Phase → Bool
is_at asking asking = true
is_at loading loading = true
is_at choosing choosing = true
is_at verifying verifying = true
is_at ended ended = true
is_at p q = false

unfoldable pub in_phase : Phase → Attempt → Bool
unfolding is_at
in_phase p a = is_at a.phase p

unfoldable pub is_subscribed : Attempt → Bool
is_subscribed a = a.subscribed

-- The step of the attempt of a number, if such an event can come for it: a reply while it is waited for, and what the
-- library of the wallets reports to every subscribed attempt, whatever has become of it. A call of `unsubscribe` is
-- not taken into account.
unfoldable pub step_attempt :
    ℕ → (Attempt → Bool) → (Attempt → Attempt × Outcome) → List Attempt → List Attempt × Outcome
step_attempt n at f [] = ([], goes_on)
step_attempt zero at f (a ∷ rest) = if at a then ((f a).0 ∷ rest, (f a).1) else (a ∷ rest, goes_on)
step_attempt (suc n) at f (a ∷ rest) = let more = step_attempt n at f rest in (a ∷ more.0, more.1)

unfoldable pub show_outcome : Outcome → Page → Page
unfolding fail
show_outcome goes_on p = p
show_outcome fails p = fail p
show_outcome signed_in p = record p { saved = true; address = some app }

unfoldable pub with_attempt : ℕ → (Attempt → Bool) → (Attempt → Attempt × Outcome) → Page → Page
unfolding step_attempt show_outcome
with_attempt n at f p =
    let stepped = step_attempt n at f p.attempts in
    show_outcome stepped.1 (record p { attempts = stepped.0 })

-- The form is not submitted while its button is disabled. The error of an insecure page has no timer.
unfoldable pub on_submit : Page → Page
unfolding waiting
on_submit p =
    if p.waits then p else if p.insecure then record p { error = true } else record (waiting p) {
      attempts =
          p.attempts
          ++ (record { phase = asking; subscribed = false; done = false; verifies = 0 } ∷ []);
    }

unfoldable pub on_event : Event → Page → Page
unfolding on_submit fail with_attempt on_challenge on_loaded on_status on_end on_modal on_verified
    in_phase is_subscribed
on_event submitted p = on_submit p
on_event pair_clicked p = if p.insecure then fail p else record p { address = some app_pair }
on_event timed_out p = if p.timer then fail p else p
on_event error_timed_out p =
    if p.error_timer then record p { error = false; error_timer = false } else p
on_event (challenged n c) p = with_attempt n (in_phase asking) (on_challenge c) p
on_event (loaded n ok) p = with_attempt n (in_phase loading) (on_loaded ok) p
on_event (status_changed n w) p = with_attempt n is_subscribed (on_status w) p
on_event (status_failed n) p = with_attempt n is_subscribed on_end p
on_event (modal_changed n cancelled) p = with_attempt n is_subscribed (on_modal cancelled) p
on_event modal_failed p = fail p
on_event (verified n ok) p = with_attempt n (in_phase verifying) (on_verified ok) p
on_event (vault_found reauth dev exists) p =
    if not reauth && (not dev && exists) then record p { address = some app } else p

unfoldable pub after_events : List Event → Page → Page
unfolding on_event
after_events [] p = p
after_events (e ∷ rest) p = after_events rest (on_event e p)
