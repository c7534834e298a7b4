-- ===== src/Login/Once.antt =====
-- The proofs that a submit of the page of signing in sends: backend/static/js/login.js.
use cryptis_dchat_project.Prelude.{
  ℕ, zero, suc, ◌≤◌, ◌≡◌, ◌≢◌, ◌∙◌, inl, inr, refl, sym, ap, if◌then◌else◌, Bool, true, false,
  Bool-cases, List, [], ◌∷◌, ◌++◌, All, arith,
}
use cryptis_dchat_project.Login.{
  Page, Attempt, Outcome, goes_on, fails, signed_in, Phase, asking, loading, choosing, verifying,
  ended, is_at, in_phase, is_subscribed, send_proof, first_page, waiting, reset, fail, show_outcome,
  with_attempt, step_attempt, on_submit, on_event, after_events, on_challenge, on_loaded, on_status,
  on_end, on_modal, on_verified, Wallet, gone, with_proof, without_proof, Challenge, refused,
  for_dev, for_wallet, Event, submitted, pair_clicked, modal_failed, timed_out, error_timed_out,
  challenged, loaded, status_changed, status_failed, modal_changed, verified, vault_found,
}

-- The proofs that a submit has sent at most.
unfoldable pub sent_at : Phase → ℕ
sent_at asking = 0
sent_at loading = 0
sent_at choosing = 0
sent_at verifying = 1
sent_at ended = 1

-- A subscribed submit that is not done waits for a wallet.
abbrev IsOnce : Attempt → Type 0
IsOnce a =
    (a.verifies ≤ sent_at a.phase) × (a.subscribed ≡ true → a.done ≡ false → a.phase ≡ choosing)

is_at-same : (p q : Phase) → is_at p q ≡ true → p ≡ q
unfolding is_at
is_at-same asking asking h = refl
is_at-same loading loading h = refl
is_at-same choosing choosing h = refl
is_at-same verifying verifying h = refl
is_at-same ended ended h = refl
is_at-same p q h = absurd (cc h)

abbrev Keeps : (Attempt → Bool) → (Attempt → Attempt × Outcome) → Type 0
Keeps at f = (a : Attempt) → at a ≡ true → IsOnce a → IsOnce (f a).0

step_attempt-IsOnce :
    (n : ℕ) (at : Attempt → Bool) (f : Attempt → Attempt × Outcome) (xs : List Attempt)
    → Keeps at f
    → All IsOnce xs
    → All IsOnce (step_attempt n at f xs).0
unfolding step_attempt
step_attempt-IsOnce n at f [] k h = h
step_attempt-IsOnce zero at f (a ∷ xs) k h = taken (at a) refl
  where
    taken :
        (b : Bool)
        → b ≡ at a
        → All IsOnce
            (if◌then◌else◌ {A = List Attempt × Outcome} b
              ((f a).0 ∷ xs, (f a).1)
              (a ∷ xs, goes_on)).0
    taken true same = (k a (sym same) h.0, h.1)
    taken false same = h
step_attempt-IsOnce (suc n) at f (a ∷ xs) k h = (h.0, step_attempt-IsOnce n at f xs k h.1)

with_attempt-IsOnce :
    (n : ℕ) (at : Attempt → Bool) (f : Attempt → Attempt × Outcome) (p : Page)
    → Keeps at f
    → All IsOnce p.attempts
    → All IsOnce (with_attempt n at f p).attempts
unfolding with_attempt show_outcome fail reset
with_attempt-IsOnce n at f p k h =
    shown (step_attempt n at f p.attempts).1 _ (step_attempt-IsOnce n at f p.attempts k h)
  where
    shown :
        (o : Outcome) (q : Page) → All IsOnce q.attempts → All IsOnce (show_outcome o q).attempts
    shown goes_on q g = g
    shown fails q g = g
    shown signed_in q g = g

All-append_one :
    (xs : List Attempt) (a : Attempt) → All IsOnce xs → IsOnce a → All IsOnce (xs ++ (a ∷ []))
All-append_one [] a h g = (g, tt)
All-append_one (x ∷ xs) a h g = (h.0, All-append_one xs a h.1 g)

module _ (a : Attempt) (at : Phase) (h : IsOnce a) (here : in_phase at a ≡ true) where
  phase_at : a.phase ≡ at
  unfolding in_phase
  phase_at = is_at-same a.phase at here

  sent_at-phase : a.verifies ≤ sent_at at
  sent_at-phase = omega (arith, ap sent_at phase_at, h.0)

  -- A submit that waits for a reply is not subscribed, or is done.
  not_choosing : at ≢ choosing → a.subscribed ≡ true → a.done ≡ true
  not_choosing other sub = elim (Bool-cases a.done) [
    | inl done ↦ done
    | inr open_ ↦ absurd (other (sym phase_at ∙ h.1 sub open_))
  ]

asking_other : asking ≢ choosing
asking_other e = cc e

loading_other : loading ≢ choosing
loading_other e = cc e

verifying_other : verifying ≢ choosing
verifying_other e = cc e

-- What is left of a submit that was done, or is not subscribed.
done_open : {d : Bool} → d ≡ true → d ≡ false → {p q : Phase} → p ≡ q
done_open h k = absurd (cc (h, k))

on_challenge-Keeps : (c : Challenge) → Keeps (in_phase asking) (on_challenge c)
unfolding on_challenge send_proof sent_at
on_challenge-Keeps refused a here h =
    let low = sent_at-phase a asking h here in
    (omega (arith, low), λ sub o. done_open (not_choosing a asking h here asking_other sub) o)
on_challenge-Keeps for_dev a here h =
    let low = sent_at-phase a asking h here in
    (omega (arith, low), λ sub o. done_open (not_choosing a asking h here asking_other sub) o)
on_challenge-Keeps for_wallet a here h =
    let low = sent_at-phase a asking h here in
    (omega (arith, low), λ sub o. done_open (not_choosing a asking h here asking_other sub) o)

on_loaded-Keeps : (ok : Bool) → Keeps (in_phase loading) (on_loaded ok)
unfolding on_loaded sent_at
on_loaded-Keeps true a here h =
    let low = sent_at-phase a loading h here in (omega (arith, low), λ sub o. refl)
on_loaded-Keeps false a here h =
    let low = sent_at-phase a loading h here in
    (omega (arith, low), λ sub o. done_open (not_choosing a loading h here loading_other sub) o)

-- Nothing is sent before a subscribed submit is done.
sent_none : (a : Attempt) → is_subscribed a ≡ true → IsOnce a → a.done ≡ false → a.verifies ≡ 0
unfolding is_subscribed sent_at
sent_none a sub h o = omega (arith, h.0, ap sent_at (h.1 sub o))

on_end-Keeps : Keeps is_subscribed on_end
unfolding on_end sent_at
on_end-Keeps a sub h = at a.done refl
  where
    at :
        (done : Bool)
        → done ≡ a.done
        → IsOnce
            (if◌then◌else◌ {A = Attempt × Outcome} done
              (a, goes_on)
              (record a { done = true; phase = ended }, fails)).0
    at true same = h
    at false same = (omega (arith, sent_none a sub h (sym same)), λ s o. done_open refl o)

on_modal-Keeps : (cancelled : Bool) → Keeps is_subscribed (on_modal cancelled)
unfolding on_modal
on_modal-Keeps true a sub h = on_end-Keeps a sub h
on_modal-Keeps false a sub h = h

on_status-Keeps : (w : Wallet) → Keeps is_subscribed (on_status w)
unfolding on_status on_end send_proof sent_at
on_status-Keeps gone a sub h = h
on_status-Keeps with_proof a sub h = at a.done refl
  where
    at :
        (done : Bool)
        → done ≡ a.done
        → IsOnce
            (if◌then◌else◌ {A = Attempt × Outcome} done
              (a, goes_on)
              (send_proof (record a { done = true }), goes_on)).0
    at true same = h
    at false same = (omega (arith, sent_none a sub h (sym same)), λ s o. done_open refl o)
on_status-Keeps without_proof a sub h = on_end-Keeps a sub h

on_verified-Keeps : (ok : Bool) → Keeps (in_phase verifying) (on_verified ok)
unfolding on_verified sent_at
on_verified-Keeps ok a here h =
    let low = sent_at-phase a verifying h here in
    (omega (arith, low), λ sub o. done_open (not_choosing a verifying h here verifying_other sub) o)

if-IsOnce :
    (b : Bool) (p q : Page)
    → All IsOnce p.attempts
    → All IsOnce q.attempts
    → All IsOnce (if b then p else q).attempts
if-IsOnce true p q h k = h
if-IsOnce false p q h k = k

on_event-IsOnce :
    (e : Event) (p : Page) → All IsOnce p.attempts → All IsOnce (on_event e p).attempts
unfolding on_event on_submit waiting fail reset sent_at
on_event-IsOnce submitted p h = if-IsOnce p.waits _ _ h (
    if-IsOnce p.insecure _ _ h
      (All-append_one p.attempts _ h (omega arith, λ sub o. absurd (cc sub))))
on_event-IsOnce pair_clicked p h = if-IsOnce _ _ _ h h
on_event-IsOnce modal_failed p h = h
on_event-IsOnce timed_out p h = if-IsOnce _ _ _ h h
on_event-IsOnce error_timed_out p h = if-IsOnce _ _ _ h h
on_event-IsOnce (challenged n c) p h =
    with_attempt-IsOnce n (in_phase asking) _ p (on_challenge-Keeps c) h
on_event-IsOnce (loaded n ok) p h =
    with_attempt-IsOnce n (in_phase loading) _ p (on_loaded-Keeps ok) h
on_event-IsOnce (status_changed n w) p h =
    with_attempt-IsOnce n is_subscribed _ p (on_status-Keeps w) h
on_event-IsOnce (status_failed n) p h = with_attempt-IsOnce n is_subscribed _ p on_end-Keeps h
on_event-IsOnce (modal_changed n cancelled) p h =
    with_attempt-IsOnce n is_subscribed _ p (on_modal-Keeps cancelled) h
on_event-IsOnce (verified n ok) p h =
    with_attempt-IsOnce n (in_phase verifying) _ p (on_verified-Keeps ok) h
on_event-IsOnce (vault_found reauth dev exists) p h = if-IsOnce _ _ _ h h

run-IsOnce :
    (es : List Event) (p : Page) → All IsOnce p.attempts → All IsOnce (after_events es p).attempts
unfolding after_events
run-IsOnce [] p h = h
run-IsOnce (e ∷ rest) p h = run-IsOnce rest (on_event e p) (on_event-IsOnce e p h)

-- After any events of the page of signing in, no submit of the form has sent more than one proof to the
-- server, and one that waits for the challenge, for the library or for a wallet has sent none.
pub after_events-once :
    (insecure : Bool) (es : List Event)
    → All
        (λ (a : Attempt). a.verifies ≤ sent_at a.phase)
        (after_events es (first_page insecure)).attempts
unfolding first_page
after_events-once insecure es =
    all_low (after_events es (first_page insecure)).attempts
      (run-IsOnce es (first_page insecure) tt)
  where
    all_low :
        (xs : List Attempt) → All IsOnce xs → All (λ (a : Attempt). a.verifies ≤ sent_at a.phase) xs
    all_low [] h = tt
    all_low (x ∷ xs) h = (h.0.0, all_low xs h.1)
