-- ===== src/Http/Exception.antt =====
-- What can be thrown. NestJS's exception classes carry an HTTP status, `too_many_requests` is the
-- throttler's, and `conflict_over` is the conflict whose response has the id and the reference of a
-- transaction beside the message; `error` is a plain `Error` (a driver's refusal is one), and `text` is a thrown string.
-- Source: src/common/utils/error.ts.
use vault_api.Prelude.{ℕ, String}

pub data Exception : Type 0 where
  bad_request unauthorized forbidden not_found conflict too_many_requests : String → Exception
  conflict_over : String → ℕ → String → Exception
  error : String → Exception
  text : String → Exception

-- `getErrorMessage`: every exception class above but `text` is an `Error`.
pub get_error_message : Exception → String
get_error_message (bad_request m) = m
get_error_message (unauthorized m) = m
get_error_message (forbidden m) = m
get_error_message (not_found m) = m
get_error_message (conflict m) = m
get_error_message (conflict_over m id reference) = m
get_error_message (too_many_requests m) = m
get_error_message (error m) = m
get_error_message (text m) = m

-- `toError`: an `Error` is thrown on unchanged, and a string is wrapped.
unfoldable pub to_error : Exception → Exception
unfolding get_error_message
to_error (text m) = error (get_error_message (text m))
to_error e = e
