-- ===== src/Api.antt =====
-- The REST client, backend/static/js/lib/api.js: requests with a bearer token, and one refresh of the
-- session when a token is no longer valid.
pub mod Requests
pub mod Refresh
use cryptis_dchat_project.Prelude.{
  ℕ, zero, suc, ◌+◌, leb, ltb, ◌==◌, if◌then◌else◌, Bool, true, false, not, ◌&&◌, ◌||◌, Option,
  none, some, List, [], ◌∷◌, ◌++◌, String, str_eq,
}

-- The JSON of a reply: `error` is empty where the reply has none; `payload` stands for the rest.
pub record Body : Type 0 where
  pub error : String
  pub access_token : String
  pub refresh_token : String
  pub payload : ℕ

abbrev pub empty_body : Body
empty_body = record { error = ""; access_token = ""; refresh_token = ""; payload = 0 }

-- What `fetch` gives: it rejects, or a status with a body.
pub data Reply : Type 0 where
  no_network : Reply
  reply : ℕ → Body → Reply

-- A request as it is sent.
pub data Sent : Type 0 where
  call : (path : String) (authorization : Option String) → Sent
  exchange : (refresh_token : String) → Sent

-- `ApiError.code`: the one that the body names, or `'http_' + status`.
pub data Code : Type 0 where
  named : String → Code
  http_status : ℕ → Code

pub data Error : Type 0 where
  network : Error
  api_error : (status : ℕ) (code : Code) → Error

pub data Result {ℓ} (A : Type ℓ) : Type ℓ where
  ok : A → Result A
  err : Error → Result A

-- `session`, the replies that the network has ready, and what was done: the requests in order, the
-- reasons given to `onExpired`, the token that the vault has, and whether the vault has its key. That stays as it is
-- during a request.
pub record World : Type 0 where
  pub access : Option String
  pub refresh : Option String
  pub replies : List Reply
  pub sent : List Sent
  pub expired : List String
  pub saved : Option String
  pub unlocked : Bool

-- `r.ok`
unfoldable pub is_ok : ℕ → Bool
is_ok status = leb 200 status && ltb status 300

unfoldable pub code_or : String → String → String
code_or s default = if str_eq s "" then default else s

unfoldable pub take_reply : List Reply → Reply × List Reply
take_reply [] = (no_network, [])
take_reply (r ∷ rs) = (r, rs)

unfoldable pub fetch : Sent → World → World × Reply
unfolding take_reply
fetch s w =
    let (r, rest) = take_reply w.replies in
    (record w { replies = rest; sent = w.sent ++ s ∷ [] }, r)

-- `new ApiError(status, body)`
unfoldable pub api_failure : ℕ → Body → Error
api_failure status body =
    api_error status (if str_eq body.error "" then http_status status else named body.error)

-- The inner function of `doRefresh`, after the reply. `onRefresh` saves the token with `VAULT.save`, which does nothing
-- without a key.
unfoldable pub take_exchange : World → Reply → World × Result Body
unfolding is_ok code_or api_failure
take_exchange w no_network = (w, err network)
take_exchange w (reply status body) =
    if is_ok status
    then (
      record w {
        access = some body.access_token;
        refresh = some body.refresh_token;
        saved = if w.unlocked then some body.refresh_token else w.saved;
      },
      ok body,
    )
    else (
      record w { access = none; expired = w.expired ++ code_or body.error "refresh_failed" ∷ [] },
      err (api_failure status body),
    )

-- `doRefresh` with no exchange in flight.
unfoldable pub do_refresh : World → World × Result Body
unfolding fetch take_exchange
do_refresh w = elim w.refresh [
  | none ↦ (w, err (api_error 401 (named "no_session")))
  | some token ↦ let (w', r) = fetch (exchange token) w in take_exchange w' r
]

unfoldable pub refreshes : String → Bool
refreshes code = str_eq code "token_invalid" || str_eq code "unauthorized"

-- What is made of a reply that is not sent again: `opts.raw`, 204 and the statuses of failures.
unfoldable pub finish : Bool → ℕ → Body → Result (Option Body)
unfolding is_ok api_failure
finish raw status body =
    if raw
    then (if is_ok status then ok (some body) else err (api_failure status body))
    else if status == 204
    then ok none
    else if is_ok status
    then ok (some body)
    else err (api_failure status body)

unfoldable pub is_present : Option String → Bool
is_present none = false
is_present (some s) = true

-- The second round of the loop of `request`.
unfoldable pub second_try : Bool → World × Reply → World × Result (Option Body)
unfolding finish
second_try raw (w, no_network) = (w, err network)
second_try raw (w, reply status body) = (w, finish raw status body)

unfoldable pub retry : String → Bool → World × Result Body → World × Result (Option Body)
unfolding second_try fetch
retry path raw (w, err e) = (w, err e)
retry path raw (w, ok body) = second_try raw (fetch (call path w.access) w)

unfoldable pub revoked : String → World → World
revoked code w =
    if str_eq code "token_revoked" then record w { expired = w.expired ++ code ∷ [] } else w

-- The first round.
unfoldable pub first_try : String → Bool → World × Reply → World × Result (Option Body)
unfolding finish retry do_refresh refreshes revoked is_present api_failure
first_try path raw (w, no_network) = (w, err network)
first_try path raw (w, reply status body) =
    if status == 401 && is_present w.refresh
    then (if refreshes body.error
        then retry path raw (do_refresh w)
        else (revoked body.error w, err (api_failure 401 body)))
    else (w, finish raw status body)

unfoldable pub request : String → Bool → World → World × Result (Option Body)
unfolding first_try fetch
request path raw w = first_try path raw (fetch (call path w.access) w)
