-- ===== src/Api/Exchange.antt =====
-- A request from the middleware to the finished response. The guards run before the interceptors: those
-- of the module, then the throttler, then the guard of the route. `within` is the throttler's count.
-- Source: src/app.module.ts, src/common/interceptors/, src/common/middleware/request-logger.middleware.ts.
pub mod Outcome
pub mod Answers
pub mod Answered
pub mod Marks
pub mod Trace
pub mod Safety
use vault_api.Prelude.{ℕ, String, Bool, Option, none, some, List, [], ◌∷◌, ◌++◌, if◌then◌else◌}
use vault_api.Http.Exception.{Exception, too_many_requests}
use vault_api.Http.Action.{Result, ok, err}
use vault_api.Http.Request.{HttpRequest, Tracked, correlate, correlation_header_of}
use vault_api.Http.Filter.{ErrorResponse, catch}
use vault_api.Http.Logs.{LogEntry, on_finish, on_next, on_error, on_exception}
use vault_api.Http.Envelope.{Body, enveloped, sent, failed, HttpResponse, transform}
use vault_api.App.{App, on_db}
use vault_api.Auth.Controller as AuthController
use vault_api.Auth.Guards.{authorise, local_guard}
use vault_api.Transactions.Idempotency.{can_activate}
use vault_api.Transactions.Controller as TransactionsController
use vault_api.Api.{
  Services, Draws, Endpoint, accounts, admin, auth, beneficiaries, fees, health, kyc, notifications,
  statements, transactions, transaction_pin, users, wallets, webhooks, access, Reply, handle,
}
use vault_api.Api.Codes.{code_of}
use vault_api.Config.{Limit}
use vault_api.Api.Limits.{limit_of}

-- The request, what `uuidv4` draws for it, and the readings of the clock on its way.
pub record Arrival : Type 0 where
  pub request : HttpRequest
  pub generated : String
  pub received : ℕ
  pub started : ℕ
  pub answered : ℕ
  pub finished : ℕ

pub record Exchange (A : Type 0) : Type 0 where
  pub response : HttpResponse A
  pub logs : List LogEntry

-- A handler's reply in the body of the response.
unfoldable pub body_of : ℕ → (e : Endpoint) → Reply e → Body (Reply e)
body_of now (statements r) reply = sent reply
body_of now e reply = enveloped (transform (code_of e) now reply)

-- The answer of the filter, on top of the headers that are set and the log that is written by then.
unfoldable pub refuse :
    {A : Type 0} → Arrival → Tracked → Option String → List LogEntry → Exception → Exchange A
unfolding catch on_exception on_finish
refuse a tracked header earlier e =
    let answer : ErrorResponse = catch a.request a.answered e in
    record {
      response = record {
        status_code = answer.status_code;
        correlation = header;
        body = failed answer;
      };
      logs =
          earlier
          ++ (on_exception a.request e ++ on_finish tracked answer.status_code a.finished ∷ []);
    }

-- The interceptors around a handler that has returned or thrown. `header` is what the response has
-- before them.
unfoldable pub settled :
    Arrival → Tracked → Option String → (e : Endpoint) → Result (Reply e) → Exchange (Reply e)
unfolding body_of correlation_header_of on_next on_finish on_error refuse
settled a tracked header e (ok reply) = record {
  response = record {
    status_code = code_of e;
    correlation = correlation_header_of tracked header;
    body = body_of a.answered e reply;
  };
  logs =
      on_next a.request a.started a.answered (code_of e)
      ∷ on_finish tracked (code_of e) a.finished
      ∷ [];
}
settled a tracked header e (err x) =
    refuse a tracked (correlation_header_of tracked header)
      (on_error a.request a.started a.answered x ∷ []) x

abbrev refusal : {A : Type 0} → Result A → Option Exception
refusal (ok a) = none
refusal (err x) = some x

module _ {Db : Type 0} (svc : Services Db) where
  -- What the guard of the route throws, if it does. The guards are parts of the handlers of Api, which
  -- run them on the same state again.
  unfoldable pub route_guard : Draws → Endpoint → App Db → Option Exception
  route_guard d (transactions (TransactionsController.transfer header dto)) s =
      refusal (can_activate svc.tables svc.is_uuid d.now header s.db).0
  route_guard d (transactions (TransactionsController.withdraw header dto)) s =
      refusal (can_activate svc.tables svc.is_uuid d.now header s.db).0
  route_guard d (auth (AuthController.login email password)) s =
      refusal (local_guard svc.bcrypt svc.users svc.jwt email password s.db).0
  route_guard d e s = none

  -- A response starts with no headers of its own. Whoever throws, the filter answers; a guard that
  -- throws does so before the interceptors have run. `configured` is the limit of the configuration.
  unfoldable pub exchange :
      (within : Limit → HttpRequest → Bool) (configured : Limit)
      → Draws
      → Arrival
      → (e : Endpoint) → App Db
      → Exchange (Reply e) × App Db
  unfolding correlate refuse settled
  exchange within configured d a e s =
      let tracked = correlate a.generated a.received a.request in
      let (entered, s') =
        on_db (authorise svc.bcrypt svc.users svc.verify d.now (access e) a.request.token) s in
      elim entered [
        | err x ↦ (refuse a tracked none [] x, s')
        | ok user ↦
            if within (limit_of configured e) a.request
            then elim (route_guard d e s') [
              | some x ↦ (refuse a tracked none [] x, s')
              | none ↦ let (r, s'') = handle svc d user e s' in (settled a tracked none e r, s'')
            ]
            else (
              refuse a tracked none [] (too_many_requests "ThrottlerException: Too Many Requests"),
              s',
            )
      ]
