-- ===== src/Api/Refresh.antt =====
-- One exchange for all callers, and the copy of the refresh token in the vault: `doRefresh` of
-- backend/static/js/lib/api.js with `onRefresh`, `lockApp` and `unlockWith` of
-- backend/static/js/app/data.js. A token that was exchanged is spent: the server revokes the device
-- that presents it again.
use mathlib.Core.Option.{some-injective}
use cryptis_dchat_project.Prelude.{
  ◌≡◌, sym, ◌≢◌, refl, ap, ◌∙◌, length, drop, ◌≤◌, Bool, true, false, if◌then◌else◌, Option, none,
  some, List, [], ◌∷◌, arith, String, All, Option-cases, inl, inr,
}

-- `session.refresh`, the token of the exchange in flight (`refreshing`), the tokens of all the requests that are on the
-- way to the server, the tokens that it took, the token in the stored vault, and whether the vault has its key.
pub record Session : Type 0 where
  pub refresh : Option String
  pub in_flight : Option String
  pub presented : List String
  pub spent : List String
  pub vault : Option String
  pub unlocked : Bool

-- A call of `doRefresh`: a caller joins the exchange that is in flight.
unfoldable pub ask : Session → Session
ask s = elim s.refresh [
  | none ↦ s
  | some token ↦ elim s.in_flight [
    | none ↦ record s { in_flight = some token; presented = token ∷ s.presented }
    | some _ ↦ s
  ]
]

-- The exchange succeeds: `onRefresh` saves the new token, which does nothing while the vault is locked.
unfoldable pub settle : String → Session → Session
settle new s = elim s.in_flight [
  | none ↦ s
  | some token ↦ record s {
    refresh = some new;
    in_flight = none;
    presented = drop 1 s.presented;
    spent = token ∷ s.spent;
    vault = if s.unlocked then some new else s.vault;
  }
]

-- The tokens that are spent when the server has taken the one in flight, or not.
unfoldable pub spent_by : Bool → Option String → List String → List String
spent_by taken none spent = spent
spent_by taken (some token) spent = if taken then token ∷ spent else spent

-- The exchange fails, and the session keeps its token: the server may have taken it, where its reply was lost.
unfoldable pub settle_failed : Bool → Session → Session
unfolding spent_by
settle_failed taken s = record s {
  in_flight = none;
  presented = drop 1 s.presented;
  spent = spent_by taken s.in_flight s.spent;
}

-- `lockApp`: the state is saved, then `wipeMemory`.
unfoldable pub lock_app : Session → Session
lock_app s = record s {
  vault = if s.unlocked then s.refresh else s.vault;
  refresh = none;
  unlocked = false;
}

-- `unlockWith` without a handoff: the token of the vault is the session's.
unfoldable pub unlock_with : Session → Session
unlock_with s = record s { refresh = s.vault; unlocked = true }

unfoldable pub token_of : Option String → List String
token_of none = []
token_of (some token) = token ∷ []

abbrev pub NotIn : String → List String → Type 0
NotIn t ts = All (λ u. u ≢ t) ts

-- What may happen next, where the server gives a token that was never spent and is not the one that it
-- takes, no lock comes while an exchange is in flight, and no reply is lost to a token that the server took.
pub data Step : Session → Session → Type 0 where
  asked : (s : Session) → Step s (ask s)
  settled :
      (s : Session) (new : String)
      → NotIn new s.spent
      → s.in_flight ≢ some new
      → Step s (settle new s)
  failed : (s : Session) → Step s (settle_failed false s)
  locked : (s : Session) → s.in_flight ≡ none → Step s (lock_app s)
  unlocked : (s : Session) → s.unlocked ≡ false → Step s (unlock_with s)

pub data Reach (start : Session) : Session → Type 0 where
  here : Reach start start
  next : {s t : Session} → Reach start s → Step s t → Reach start t

-- Neither the session nor the vault nor the exchange in flight has a token that was spent, and no request is on the way
-- but that of the exchange in flight.
pub record IsFresh (s : Session) : Type 0 where
  pub of_session : (t : String) → s.refresh ≡ some t → NotIn t s.spent
  pub of_vault : (t : String) → s.vault ≡ some t → NotIn t s.spent
  pub of_exchange : (t : String) → s.in_flight ≡ some t → NotIn t s.spent
  pub on_way : s.presented ≡ token_of s.in_flight
  pub closed : s.unlocked ≡ false → s.in_flight ≡ none
  pub empty : s.unlocked ≡ false → s.refresh ≡ none

ap_NotIn : (t : String) {ts us : List String} → ts ≡ us → NotIn t ts → NotIn t us
ap_NotIn t e h = rw (sym e) h

spent-ask : (s : Session) → (ask s).spent ≡ s.spent
unfolding ask
spent-ask s = ground arith

ask-IsFresh : (s : Session) → IsFresh s → IsFresh (ask s)
unfolding ask token_of
ask-IsFresh s h = record {
  of_session = λ t e. ground (arith, h.of_session t);
  of_vault = λ t e. ground (arith, h.of_vault t);
  of_exchange = λ t e. ground (arith, h.of_exchange t, h.of_session t);
  on_way = ground (arith, h.on_way);
  closed = λ e. ground (arith, h.closed, h.empty);
  empty = λ e. ground (arith, h.empty);
}

settle_idle : (s : Session) (new : String) → s.in_flight ≡ none → settle new s ≡ s
unfolding settle
settle_idle s new idle = ground (arith, idle)

settle_flying :
    (s : Session) (new token : String)
    → s.in_flight ≡ some token
    → s.unlocked ≡ true
    → settle new s ≡ record s {
      refresh = some new;
      in_flight = none;
      presented = drop 1 s.presented;
      spent = token ∷ s.spent;
      vault = some new;
    }
unfolding settle
settle_flying s new token flying at = ground (arith, flying, at)

NotIn-path : {t u : String} → t ≡ u → (ts : List String) → NotIn t ts → NotIn u ts
NotIn-path e [] h = h
NotIn-path e (x ∷ ts) (n, h) = (λ q. n (q ∙ sym e), NotIn-path e ts h)

to_token :
    (new t : String) (s : Session) (token : String)
    → NotIn new (token ∷ s.spent)
    → some new ≡ some t
    → NotIn t (token ∷ s.spent)
to_token new t s token ours e = NotIn-path (some-injective new t e) (token ∷ s.spent) ours

-- Once it is answered, nothing is on the way.
dropped : (s : Session) → s.presented ≡ token_of s.in_flight → drop 1 s.presented ≡ token_of none
dropped s h = ap (drop 1) h ∙ none_left s.in_flight
  where
    none_left : (o : Option String) → drop 1 (token_of o) ≡ token_of none
    none_left none = unfold token_of in refl
    none_left (some u) = unfold token_of in refl

settle-IsFresh :
    (s : Session) (new : String)
    → NotIn new s.spent
    → s.in_flight ≢ some new
    → IsFresh s
    → IsFresh (settle new s)
unfolding settle
settle-IsFresh s new unspent other h = elim (Option-cases s.in_flight) [
  | inl idle ↦ rw (settle_idle s new idle) h
  | inr (token, flying) ↦
      let ours : NotIn new (token ∷ s.spent) = (λ e. other (flying ∙ ap some e), unspent) in
      let at : s.unlocked ≡ true = ground (arith, h.closed) in
      rw (settle_flying s new token flying at) (record {
        of_session = λ t e. to_token new t s token ours e;
        of_vault = λ t e. to_token new t s token ours e;
        of_exchange = λ t e. absurd (cc e);
        on_way = dropped s h.on_way;
        closed = λ e. refl;
        empty = λ e. absurd (cc (e, at));
      })
]

settle_failed-IsFresh : (s : Session) → IsFresh s → IsFresh (settle_failed false s)
unfolding settle_failed
settle_failed-IsFresh s h = record {
  of_session = λ t e. kept t (h.of_session t e);
  of_vault = λ t e. kept t (h.of_vault t e);
  of_exchange = λ t e. absurd (cc e);
  on_way = dropped s h.on_way;
  closed = λ e. refl;
  empty = h.empty;
}
  where
    kept : (t : String) → NotIn t s.spent → NotIn t (spent_by false s.in_flight s.spent)
    kept t h = ap_NotIn t (same s.in_flight) h
      where
        same : (o : Option String) → s.spent ≡ spent_by false o s.spent
        same none = unfold spent_by in refl
        same (some u) = unfold spent_by in refl

lock_app-IsFresh : (s : Session) → s.in_flight ≡ none → IsFresh s → IsFresh (lock_app s)
unfolding lock_app
lock_app-IsFresh s idle h = record {
  of_session = λ t e. absurd (cc e);
  of_vault = λ t e. ground (arith, h.of_vault t, h.of_session t);
  of_exchange = h.of_exchange;
  on_way = h.on_way;
  closed = λ e. idle;
  empty = λ e. refl;
}

unlock_with-IsFresh : (s : Session) → s.unlocked ≡ false → IsFresh s → IsFresh (unlock_with s)
unfolding unlock_with
unlock_with-IsFresh s shut h = record {
  of_session = h.of_vault;
  of_vault = h.of_vault;
  of_exchange = h.of_exchange;
  on_way = h.on_way;
  closed = λ e. absurd (cc e);
  empty = λ e. absurd (cc e);
}

Step-IsFresh : {s t : Session} → Step s t → IsFresh s → IsFresh t
Step-IsFresh (asked s) h = ask-IsFresh s h
Step-IsFresh (settled s new unspent other) h = settle-IsFresh s new unspent other h
Step-IsFresh (failed s) h = settle_failed-IsFresh s h
Step-IsFresh (locked s idle) h = lock_app-IsFresh s idle h
Step-IsFresh (unlocked s shut) h = unlock_with-IsFresh s shut h

Reach-IsFresh : {s t : Session} → Reach s t → IsFresh s → IsFresh t
Reach-IsFresh here h = h
Reach-IsFresh (next r step) h = Step-IsFresh step (Reach-IsFresh r h)

one_way :
    (o : Option String) (presented spent : List String)
    → presented ≡ token_of o
    → ((t : String) → o ≡ some t → NotIn t spent)
    → (length presented ≤ 1) × All (λ (u : String). NotIn u spent) presented
unfolding token_of
one_way none presented spent same h = rw same (omega arith, tt)
one_way (some t) presented spent same h = rw same (omega arith, (h t refl, tt))

-- From a session whose tokens are unspent, and as long as no lock comes while an exchange is in flight,
-- no reply is lost to a token that the server took, and the server never gives a token again: after any
-- calls, replies, failures, locks and unlocks, and one more call of `ask`, at most one request with a
-- refresh token is on its way, and its token was not spent.
pub ask-unspent :
    (s t : Session)
    → IsFresh s
    → Reach s t
    → (length (ask t).presented ≤ 1) × All (λ (u : String). NotIn u (ask t).spent) (ask t).presented
ask-unspent s t h r =
    let after = ask-IsFresh t (Reach-IsFresh r h) in
    one_way (ask t).in_flight (ask t).presented (ask t).spent after.on_way after.of_exchange

-- Where the app is locked while an exchange is in flight, the new token is not saved: after the exchange
-- and the next unlock the client presents the spent token again.
pub lock_app-presents_spent :
    (s : Session) (token new : String)
    → s.unlocked ≡ true
    → s.refresh ≡ some token
    → s.in_flight ≡ some token
    → ((ask (unlock_with (settle new (lock_app s)))).in_flight ≡ some token)
      × ((settle new (lock_app s)).spent ≡ token ∷ s.spent)
unfolding ask unlock_with settle lock_app
lock_app-presents_spent s token new open_ has flying =
    (ground (arith, has, flying), ground (arith, flying))
