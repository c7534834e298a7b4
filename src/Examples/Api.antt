-- ===== src/Examples/Api.antt =====
-- The theorems on backend/static/js/lib/api.js at concrete sessions.
use cryptis_dchat_project.Prelude.{
  ◌≢◌, ◌≤◌, length, All, refl, true, false, Option, none, some, [], ◌∷◌, String, Bool, ap, str_eq,
}
use cryptis_dchat_project.Api.{World, reply, empty_body, request}
use cryptis_dchat_project.Api.Requests.{IsSaved, request-IsSaved, SendsAtMost, request-SendsAtMost}
use cryptis_dchat_project.Api.Refresh.{
  Session, token_of, ask, settle, NotIn, asked, settled, Reach, here, next, IsFresh, ask-unspent,
}

-- An access token that is over, and the replies of an exchange that succeeds.
abbrev stale : World
stale = record {
  access = some "a1";
  refresh = some "r1";
  replies =
      reply 401 (record empty_body { error = "token_invalid" })
      ∷ reply 200 (record empty_body { access_token = "a2"; refresh_token = "r2" })
      ∷ reply 200 (record empty_body { payload = 5 })
      ∷ [];
  sent = [];
  expired = [];
  saved = some "r1";
  unlocked = true;
}

request-IsSaved_example : IsSaved (request "/api/me" false stale).0
request-IsSaved_example = request-IsSaved "/api/me" false stale refl refl

request-SendsAtMost_example : SendsAtMost "/api/me" stale (request "/api/me" false stale).0
request-SendsAtMost_example = request-SendsAtMost "/api/me" false stale

abbrev session : Session
session = record {
  refresh = some "r1";
  in_flight = none;
  presented = [];
  spent = [];
  vault = some "r1";
  unlocked = true;
}

session-IsFresh : IsFresh session
session-IsFresh = record {
  of_session = λ t e. tt;
  of_vault = λ t e. tt;
  of_exchange = λ t e. tt;
  on_way = unfold token_of in refl;
  closed = λ e. refl;
  empty = λ e. absurd (cc e);
}

abbrev is : String → Option String → Bool
is s none = false
is s (some t) = str_eq t s

other : (ask session).in_flight ≢ some "r2"
unfolding ask
other e = absurd (cc (ap (is "r2") e))

exchanged : Reach session (settle "r2" (ask session))
exchanged = next (next here (asked session)) (settled (ask session) "r2" none_spent other)
  where
    none_spent : NotIn "r2" (ask session).spent
    none_spent = unfold ask in tt

ask-unspent_example :
    (length (ask (settle "r2" (ask session))).presented ≤ 1)
    × All
        (λ (u : String). NotIn u (ask (settle "r2" (ask session))).spent)
        (ask (settle "r2" (ask session))).presented
ask-unspent_example = ask-unspent session (settle "r2" (ask session)) session-IsFresh exchanged

abbrev exchanging : Session
exchanging = record session { in_flight = some "r1" }
