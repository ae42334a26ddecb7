-- ===== src/Auth.antt =====
-- `AuthService`. The package that signs tokens is a parameter: `sign_access` and `sign_refresh` sign a
-- payload at a time, with the two secrets and lifetimes of the configuration. The salts that bcrypt
-- draws are arguments.
-- Source: src/auth/auth.service.ts.
pub mod Registration
pub mod Refresh
pub mod Guards
pub mod Controller
use vault_api.Prelude.{
  ℕ, String, Bool, true, false, not, Option, none, some, ◌==◌, nat_eq, string_eq, if◌then◌else◌,
  ◌≢◌,
}
use vault_api.Http.Exception.{unauthorized, conflict}
use vault_api.Http.Action.{
  Result, ok, err, Action, ◌>>=◌, ◌>>◌, pure, throw, throw_if, or_throw, gets,
}
use vault_api.Orm.{Repository}
use vault_api.Users.Hashing.{Bcrypt}
use vault_api.Users.Entity.{User, UserRole, present, validate_password}
use vault_api.Users.{RegisterDto, create, find_by_id, find_by_email, update_refresh_token}

pub record JwtPayload : Type 0 where
  pub sub : ℕ
  pub email : String
  pub role : UserRole

pub record Jwt : Type 0 where
  pub sign_access : ℕ → JwtPayload → String
  pub sign_refresh : ℕ → JwtPayload → String

-- A signed token is not empty.
pub record SignsTokens (jwt : Jwt) : Type 0 where
  pub refresh_filled : (now : ℕ) (payload : JwtPayload) → jwt.sign_refresh now payload ≢ ""

pub record Tokens : Type 0 where
  pub access_token : String
  pub refresh_token : String

unfoldable pub generate_tokens : Jwt → ℕ → User → Tokens
generate_tokens jwt now u =
    let payload : JwtPayload = record { sub = u.id; email = u.email; role = u.role } in
    record {
      access_token = jwt.sign_access now payload;
      refresh_token = jwt.sign_refresh now payload;
    }

-- `if (existing) throw …`
abbrev is_some : Option User → Bool
is_some none = false
is_some (some _) = true

module _ {Db : Type 0} (bcrypt : Bcrypt) (jwt : Jwt) (users : Repository User Db) where
  -- `null` is `none`.
  unfoldable pub validate_user : String → String → Action Db (Option User)
  unfolding find_by_email validate_password
  validate_user email password db = elim (find_by_email bcrypt users email db) [
    | none ↦ (ok none, db)
    | some user ↦
        if validate_password bcrypt user password
        then (
          if user.is_active
              then ok (some user)
              else err (unauthorized "Account has been deactivated"),
          db,
        )
        else (ok none, db)
  ]

  -- The tokens of a session, whose refresh token is stored as a hash.
  abbrev start_session : ℕ → String → User → Action Db Tokens
  start_session now salt user = do
    update_refresh_token bcrypt users salt user.id
        (some (generate_tokens jwt now user).refresh_token)
    pure (generate_tokens jwt now user)

  unfoldable pub register : ℕ → ℕ → String → String → RegisterDto → Action Db (User × Tokens)
  unfolding create update_refresh_token generate_tokens
  register now id password_salt token_salt dto = do
    existing ← gets (find_by_email bcrypt users dto.email)
    throw_if (is_some existing) (conflict "Email already registered")
    user ← create bcrypt users id password_salt dto
    tokens ← start_session now token_salt user
    pure (user, tokens)

  unfoldable pub login : ℕ → String → User → Action Db (User × Tokens)
  unfolding update_refresh_token generate_tokens
  login now salt user = do tokens ← start_session now salt user; pure (user, tokens)

  -- `!user || !user.refreshToken`
  abbrev stored_token : Option User → Option (User × String)
  stored_token none = none
  stored_token (some u) = elim (present u.refresh_token) [
    | none ↦ none
    | some token ↦ some (u, token)
  ]

  unfoldable pub refresh_tokens : ℕ → String → ℕ → String → Action Db Tokens
  unfolding find_by_id update_refresh_token generate_tokens
  refresh_tokens now salt user_id refresh_token = do
    found ←
        or_throw (stored_token (← gets (find_by_id bcrypt users user_id)))
          (unauthorized "Access denied")
    throw_if (not (bcrypt.compare refresh_token found.1)) (unauthorized "Invalid refresh token")
    start_session now salt found.0

  unfoldable pub logout : String → ℕ → Action Db String
  unfolding update_refresh_token
  logout salt user_id = do
    update_refresh_token bcrypt users salt user_id none
    pure "Logged out successfully"
