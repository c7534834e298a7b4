-- ===== src/Api/Requests.antt =====
-- What `request` of backend/static/js/lib/api.js sends, and what it leaves in the session.
use cryptis_dchat_project.Prelude.{
  ◌≡◌, refl, sym, ap, ◌∙◌, ◌⊎◌, inl, inr, Bool, true, Bool-cases, Option, none, some, Option-cases,
  [], ◌∷◌, ◌++◌, arith, String, ◌==◌, ◌&&◌,
}
use cryptis_dchat_project.Api.{
  Body, Reply, no_network, reply, Sent, call, exchange, Error, Result, ok, err, World, fetch,
  take_exchange, do_refresh, refreshes, second_try, retry, first_try, request, is_present,
}

-- The first call; or that and an exchange of the session's refresh token; or those and the call once
-- more, with the access token that the exchange gave.
abbrev pub SendsAtMost : String → World → World → Type 0
SendsAtMost path w w' =
    (w'.sent ≡ w.sent ++ call path w.access ∷ [])
    ⊎ ((token : String) × (w.refresh ≡ some token)
        × ((w'.sent ≡ (w.sent ++ call path w.access ∷ []) ++ exchange token ∷ [])
            ⊎ ((fresh : String) × (w'.access ≡ some fresh)
                × (w'.sent
                    ≡ ((w.sent ++ call path w.access ∷ []) ++ exchange token ∷ [])
                      ++ call path (some fresh) ∷ []))))

-- The vault has the refresh token of the session.
abbrev pub IsSaved : World → Type 0
IsSaved w = w.saved ≡ w.refresh

-- It has it, and is open.
abbrev IsKept : World → Type 0
IsKept w = (w.unlocked ≡ true) × IsSaved w

sent-take_exchange : (w : World) (r : Reply) → (take_exchange w r).0.sent ≡ w.sent
unfolding take_exchange
sent-take_exchange w no_network = refl
sent-take_exchange w (reply status body) = ground arith

take_exchange-IsKept : (w : World) (r : Reply) → IsKept w → IsKept (take_exchange w r).0
unfolding take_exchange
take_exchange-IsKept w no_network h = h
take_exchange-IsKept w (reply status body) (at, h) = (ground (arith, at), ground (arith, at, h))

take_exchange-access :
    (w : World) (r : Reply) (body : Body)
    → (take_exchange w r).1 ≡ ok body
    → (take_exchange w r).0.access ≡ some body.access_token
unfolding take_exchange
take_exchange-access w no_network body h = absurd (cc h)
take_exchange-access w (reply status b) body h = ground arith

abbrev exchanged : String → World → World × Result Body
exchanged token w = take_exchange (fetch (exchange token) w).0 (fetch (exchange token) w).1

do_refresh-some :
    (w : World) (token : String) → w.refresh ≡ some token → do_refresh w ≡ exchanged token w
unfolding do_refresh
do_refresh-some w token has = ground (arith, has)

do_refresh-none : (w : World) → w.refresh ≡ none → (do_refresh w).0 ≡ w
unfolding do_refresh
do_refresh-none w gone = ground (arith, gone)

sent-fetch : (s : Sent) (w : World) → (fetch s w).0.sent ≡ w.sent ++ s ∷ []
unfolding fetch
sent-fetch s w = refl

module _ (s : Sent) (w : World) where
  fetch_keeps :
      ((fetch s w).0.access ≡ w.access)
      × ((fetch s w).0.refresh ≡ w.refresh)
      × ((fetch s w).0.saved ≡ w.saved)
      × ((fetch s w).0.unlocked ≡ w.unlocked)
  unfolding fetch
  fetch_keeps = (refl, refl, refl, refl)

do_refresh-IsKept : (w : World) → IsKept w → IsKept (do_refresh w).0
do_refresh-IsKept w h = elim (Option-cases w.refresh) [
  | inl gone ↦ rw (do_refresh-none w gone) h
  | inr (token, has) ↦
      let (a, r, s, u) = fetch_keeps (exchange token) w in
      rw (do_refresh-some w token has) (
        take_exchange-IsKept (fetch (exchange token) w).0 (fetch (exchange token) w).1
          (u ∙ h.0, s ∙ h.1 ∙ sym r))
]

-- `second_try` and `finish` change nothing but what the call itself sent.
second_try-world : (raw : Bool) (w : World) (r : Reply) → (second_try raw (w, r)).0 ≡ w
unfolding second_try
second_try-world raw w no_network = refl
second_try-world raw w (reply status body) = refl

retry-world :
    (path : String) (raw : Bool) (w : World) (body : Body)
    → (retry path raw (w, ok body)).0 ≡ (fetch (call path w.access) w).0
retry-world path raw w body =
    unfold retry in
    second_try-world raw (fetch (call path w.access) w).0 (fetch (call path w.access) w).1

retry-IsKept :
    (path : String) (raw : Bool) (w : World) (r : Result Body)
    → IsKept w
    → IsKept (retry path raw (w, r)).0
retry-IsKept path raw w (err e) h = unfold retry in h
retry-IsKept path raw w (ok body) h =
    let (a, r, s, u) = fetch_keeps (call path w.access) w in
    rw (retry-world path raw w body) (u ∙ h.0, s ∙ h.1 ∙ sym r)

-- The state after the first reply: as it is, with a reason to end the session, or after an exchange.
first_try_cases :
    (path : String) (raw : Bool) (w : World) (r : Reply)
    → ((first_try path raw (w, r)).0.sent ≡ w.sent)
        × ((first_try path raw (w, r)).0.refresh ≡ w.refresh)
        × ((first_try path raw (w, r)).0.saved ≡ w.saved)
        × ((first_try path raw (w, r)).0.unlocked ≡ w.unlocked)
      ⊎ (is_present w.refresh ≡ true) × (first_try path raw (w, r) ≡ retry path raw (do_refresh w))
unfolding first_try
first_try_cases path raw w no_network = inl (refl, refl, refl, refl)
first_try_cases path raw w (reply status body) =
    elim (Bool-cases (status == 401 && is_present w.refresh)) [
      | inl asks ↦ elim (Bool-cases (refreshes body.error)) [
        | inl again ↦ inr (ground arith, rw (asks, again))
        | inr not_again ↦
            rw (asks, not_again) (inl (ground arith, ground arith, ground arith, ground arith))
      ]
      | inr plain ↦ rw plain (inl (refl, refl, refl, refl))
    ]

first_try-IsKept :
    (path : String) (raw : Bool) (w : World) (r : Reply)
    → IsKept w
    → IsKept (first_try path raw (w, r)).0
first_try-IsKept path raw w r h = elim (first_try_cases path raw w r) [
  | inl (sent, refresh, saved, open_) ↦ (open_ ∙ h.0, saved ∙ h.1 ∙ sym refresh)
  | inr (present, again) ↦
      rw again (retry-IsKept path raw (do_refresh w).0 (do_refresh w).1 (do_refresh-IsKept w h))
]

-- Whatever the server replies, after `request` the vault has the refresh token that the session has, if
-- it had it before and is open; in the model it stays open during the request.
pub request-IsSaved :
    (path : String) (raw : Bool) (w : World)
    → w.unlocked ≡ true
    → IsSaved w
    → IsSaved (request path raw w).0
unfolding request
request-IsSaved path raw w at h =
    let (a, r, s, u) = fetch_keeps (call path w.access) w in
    (first_try-IsKept path raw (fetch (call path w.access) w).0 (fetch (call path w.access) w).1
      (u ∙ at, s ∙ h ∙ sym r)).1

-- What an exchange of the token sends, and the access token that it leaves where it succeeds.
do_refresh-sent :
    (w : World) (token : String)
    → w.refresh ≡ some token
    → (do_refresh w).0.sent ≡ w.sent ++ exchange token ∷ []
do_refresh-sent w token has = rw (do_refresh-some w token has) (
    sent-take_exchange (fetch (exchange token) w).0 (fetch (exchange token) w).1
    ∙ sent-fetch (exchange token) w)

do_refresh-access :
    (w : World) (token : String) (body : Body)
    → w.refresh ≡ some token
    → (do_refresh w).1 ≡ ok body
    → (do_refresh w).0.access ≡ some body.access_token
do_refresh-access w token body has done =
    let e = do_refresh-some w token has in
    ap (λ r. r.0.access) e
    ∙ take_exchange-access (fetch (exchange token) w).0 (fetch (exchange token) w).1 body
        (sym (ap (λ r. r.1) e) ∙ done)

Result-cases : (r : Result Body) → ((body : Body) × (r ≡ ok body)) ⊎ ((e : Error) × (r ≡ err e))
Result-cases (ok body) = inl (body, refl)
Result-cases (err e) = inr (e, refl)

retry-sent :
    (path : String) (raw : Bool) (w : World) (token : String)
    → w.refresh ≡ some token
    → ((retry path raw (do_refresh w)).0.sent ≡ w.sent ++ exchange token ∷ [])
      ⊎ ((fresh : String) × ((retry path raw (do_refresh w)).0.access ≡ some fresh)
          × ((retry path raw (do_refresh w)).0.sent
              ≡ (w.sent ++ exchange token ∷ []) ++ call path (some fresh) ∷ []))
retry-sent path raw w token has = elim (Result-cases (do_refresh w).1) [
  | inl (body, done) ↦
      let w1 = (do_refresh w).0 in
      let all : (retry path raw (do_refresh w)).0 ≡ (fetch (call path w1.access) w1).0 =
        ap (λ r. (retry path raw (w1, r)).0) done ∙ retry-world path raw w1 body in
      let access = do_refresh-access w token body has done in
      inr (
        body.access_token,
        ap (λ u. u.access) all ∙ (fetch_keeps (call path w1.access) w1).0 ∙ access,
        ap (λ u. u.sent) all
            ∙ sent-fetch (call path w1.access) w1
            ∙ ap (λ s. s ++ call path w1.access ∷ []) (do_refresh-sent w token has)
            ∙ ap (λ a. (w.sent ++ exchange token ∷ []) ++ call path a ∷ []) access,
      )
  | inr (e, failed) ↦
      let w1 = (do_refresh w).0 in
      inl (
        ap (λ r. (retry path raw (w1, r)).0.sent) failed
        ∙ unfold retry in do_refresh-sent w token has)
]

is_present-some : (o : Option String) → is_present o ≡ true → (s : String) × (o ≡ some s)
unfolding is_present
is_present-some none h = absurd (cc h)
is_present-some (some s) h = (s, refl)

-- `request` sends the call; or the call and one exchange of the refresh token that the session has; or,
-- after an exchange that succeeds, also the call once more, with the new access token. It never sends
-- anything else, whatever the server replies.
pub request-SendsAtMost :
    (path : String) (raw : Bool) (w : World) → SendsAtMost path w (request path raw w).0
unfolding request
request-SendsAtMost path raw w =
    let w1 = (fetch (call path w.access) w).0 in
    let r = (fetch (call path w.access) w).1 in
    let (a, same, s, u) = fetch_keeps (call path w.access) w in
    let first = sent-fetch (call path w.access) w in
    elim (first_try_cases path raw w1 r) [
      | inl (sent, refresh, saved, open_) ↦ inl (sent ∙ first)
      | inr (present, again) ↦
          let (token, has) = is_present-some w1.refresh present in
          elim (retry-sent path raw w1 token has) [
            | inl sent ↦ inr (
              token,
              sym same ∙ has,
              inl (ap (λ u. u.0.sent) again ∙ sent ∙ ap (λ l. l ++ exchange token ∷ []) first),
            )
            | inr (fresh, access, sent) ↦ inr (
              token,
              sym same ∙ has,
              inr (
                fresh,
                ap (λ u. u.0.access) again ∙ access,
                ap (λ u. u.0.sent) again
                    ∙ sent
                    ∙ ap (λ l. (l ++ exchange token ∷ []) ++ call path (some fresh) ∷ []) first,
              ),
            )
          ]
    ]
