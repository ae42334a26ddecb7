-- ===== src/Http/Filter.antt =====
-- `GlobalExceptionFilter.catch`: what a client is sent when an exception is thrown. The numbers of the
-- statuses are those of NestJS's exception classes.
-- Source: src/common/filters/global-exception.filter.ts.
use vault_api.Prelude.{ℕ, String, Bool, false}
use vault_api.Http.Exception.{
  Exception, bad_request, unauthorized, forbidden, not_found, conflict, conflict_over,
  too_many_requests, error, text,
}
use vault_api.Http.Request.{HttpRequest}

pub record ErrorResponse : Type 0 where
  pub success : Bool
  pub status_code : ℕ
  pub timestamp : ℕ
  pub path : String
  pub method : String
  pub message : String

abbrev pub status : Exception → ℕ
status (bad_request _) = 400
status (unauthorized _) = 401
status (forbidden _) = 403
status (not_found _) = 404
status (conflict _) = 409
status (conflict_over _ _ _) = 409
status (too_many_requests _) = 429
status (error _) = 500
status (text _) = 500

-- Only an `HttpException` shows its message; what its response holds beside the message is dropped.
abbrev pub public_message : Exception → String
public_message (bad_request m) = m
public_message (unauthorized m) = m
public_message (forbidden m) = m
public_message (not_found m) = m
public_message (conflict m) = m
public_message (conflict_over m id reference) = m
public_message (too_many_requests m) = m
public_message (error _) = "Internal server error"
public_message (text _) = "Internal server error"

unfoldable pub catch : HttpRequest → ℕ → Exception → ErrorResponse
catch request now e = record {
  success = false;
  status_code = status e;
  timestamp = now;
  path = request.url;
  method = request.method;
  message = public_message e;
}
