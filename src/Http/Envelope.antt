-- ===== src/Http/Envelope.antt =====
-- What goes back to the client. `TransformInterceptor` wraps what a handler returns; a handler that has
-- asked for the response object (`@Res`) sends its answer itself, without the wrapping.
-- Source: src/common/interceptors/transform.interceptor.ts.
use vault_api.Prelude.{ℕ, String, Bool, true, Option}
use vault_api.Http.Filter.{ErrorResponse}

pub record ApiResponse (A : Type 0) : Type 0 where
  pub success : Bool
  pub status_code : ℕ
  pub content : A
  pub timestamp : ℕ

unfoldable pub transform : {A : Type 0} → ℕ → ℕ → A → ApiResponse A
transform status_code now content = record {
  success = true;
  status_code = status_code;
  content = content;
  timestamp = now;
}

pub data Body (A : Type 0) : Type 0 where
  enveloped : ApiResponse A → Body A
  sent : A → Body A
  failed : ErrorResponse → Body A

pub record HttpResponse (A : Type 0) : Type 0 where
  pub status_code : ℕ
  pub correlation : Option String
  pub body : Body A
