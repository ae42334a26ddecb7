-- ===== src/Auth/Controller.antt =====
-- `AuthController`. `login` stands behind the guard of the local strategy; the key of a new user and
-- the two salts are arguments.
-- Source: src/auth/auth.controller.ts, src/auth/dto/auth.dto.ts.
use vault_api.Prelude.{ℕ, String, Option}
use vault_api.Http.Action.{Action, ◌>>=◌}
use vault_api.Orm.{Repository}
use vault_api.Users.Hashing.{Bcrypt}
use vault_api.Users.Entity.{User}
use vault_api.Users.{RegisterDto}
use vault_api.Auth.{Jwt, Tokens, refresh_tokens}
use vault_api.Auth.Guards.{Principal, Access, signed_in, open_to_all, user_id_of, local_guard}

pub data Route : Type 0 where
  register : RegisterDto → Route
  login : String → String → Route
  refresh : ℕ → String → Route
  logout : Route

unfoldable pub access : Route → Access
access logout = signed_in
access _ = open_to_all

abbrev pub Reply : Route → Type 0
Reply (refresh user_id refresh_token) = Tokens
Reply logout = String
Reply _ = User × Tokens

module _ {Db : Type 0} (bcrypt : Bcrypt) (jwt : Jwt) (users : Repository User Db) where
  unfoldable pub handle :
      ℕ → ℕ → String → String → Option Principal → (route : Route) → Action Db (Reply route)
  handle now id password_salt token_salt user (register dto) =
      vault_api.Auth.register bcrypt jwt users now id password_salt token_salt dto
  handle now id password_salt token_salt user (login email password) =
      local_guard bcrypt users jwt email password >>= λ u.
      vault_api.Auth.login bcrypt jwt users now token_salt u
  handle now id password_salt token_salt user (refresh user_id refresh_token) =
      refresh_tokens bcrypt jwt users now token_salt user_id refresh_token
  handle now id password_salt token_salt user logout =
      user_id_of user >>= λ u. vault_api.Auth.logout bcrypt jwt users token_salt u
