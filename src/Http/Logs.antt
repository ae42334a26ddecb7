-- ===== src/Http/Logs.antt =====
-- What is logged of a request: by `LoggingInterceptor` around the handler, by `GlobalExceptionFilter`,
-- and by `RequestLoggerMiddleware` when the response is finished. An entry holds what its text is made
-- of. The clock is taken not to run backwards.
-- Source: src/common/middleware/request-logger.middleware.ts,
-- src/common/interceptors/logging.interceptor.ts, src/common/filters/global-exception.filter.ts.
use vault_api.Prelude.{ℕ, ◌-◌, String, Option, none, some, List, [], ◌∷◌, leb, if◌then◌else◌}
use vault_api.Http.Exception.{Exception, text, get_error_message}
use vault_api.Http.Filter.{status}
use vault_api.Http.Request.{HttpRequest, Tracked}

-- The method of the logger that is called.
pub data LogLevel : Type 0 where
  log warn error : LogLevel

pub record RequestLog : Type 0 where
  pub correlation_id : String
  pub method : String
  pub url : String
  pub status_code : ℕ
  pub duration : ℕ
  pub ip : String
  pub user_agent : Option String

pub data LogEntry : Type 0 where
  handled : (method url : String) → (status_code duration : ℕ) → String → LogEntry
  handler_failed : (method url : String) → ℕ → String → Option String → LogEntry
  exception_caught : (method url : String) → Exception → LogEntry
  finished : LogLevel → RequestLog → LogEntry

-- `err.message`, which a thrown text does not have.
abbrev pub message_of : Exception → Option String
message_of (text m) = none
message_of e = some (get_error_message e)

unfoldable pub level_of : ℕ → LogLevel
level_of status_code =
    if leb 500 status_code
    then LogLevel.error
    else if leb 400 status_code
    then LogLevel.warn
    else LogLevel.log

-- `RequestLoggerMiddleware`, once the response has its status.
unfoldable pub on_finish : Tracked → ℕ → ℕ → LogEntry
unfolding level_of
on_finish tracked status_code now = finished (level_of status_code) (record {
  correlation_id = tracked.correlation_id;
  method = tracked.request.method;
  url = tracked.request.url;
  status_code = status_code;
  duration = now - tracked.start_time;
  ip = tracked.request.ip;
  user_agent = tracked.request.user_agent;
})

-- The two callbacks of `LoggingInterceptor`.
unfoldable pub on_next : HttpRequest → ℕ → ℕ → ℕ → LogEntry
on_next request start now status_code =
    handled request.method request.url status_code (now - start) request.ip

unfoldable pub on_error : HttpRequest → ℕ → ℕ → Exception → LogEntry
on_error request start now e =
    handler_failed request.method request.url (now - start) request.ip (message_of e)

-- The entry of the filter, which is written for a status from 500 on.
unfoldable pub on_exception : HttpRequest → Exception → List LogEntry
on_exception request e =
    if leb 500 (status e) then exception_caught request.method request.url e ∷ [] else []
