-- ===== src/Http/Request.antt =====
-- A request, as the middleware leaves it. `originalUrl` is taken to be `url`. The header `x-correlation-id`
-- is `none` where it is missing; `generated` is what `uuidv4` draws.
-- Source: src/common/middleware/request-logger.middleware.ts,
-- src/common/interceptors/correlation-id.interceptor.ts.
use vault_api.Prelude.{ℕ, String, Option, none, some}
use vault_api.Users.Entity.{present}

pub record HttpRequest : Type 0 where
  pub token : Option String
  pub correlation_header : Option String
  pub method : String
  pub url : String
  pub ip : String
  pub user_agent : Option String

-- What `CorrelationIdMiddleware` writes on the request.
pub record Tracked : Type 0 where
  pub request : HttpRequest
  pub correlation_id : String
  pub start_time : ℕ

unfoldable pub correlate : String → ℕ → HttpRequest → Tracked
correlate generated now request = record {
  request = request;
  correlation_id = elim request.correlation_header [ none ↦ generated | some given ↦ given ];
  start_time = now;
}

-- `CorrelationIdInterceptor`: the header `X-Correlation-ID` of the response, from what it was before.
unfoldable pub correlation_header_of : Tracked → Option String → Option String
correlation_header_of tracked before = elim (present (some tracked.correlation_id)) [
  | none ↦ before
  | some id ↦ some id
]
