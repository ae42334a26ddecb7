-- ===== src/Auth/Guards.antt =====
-- The guards that stand before every route: the token, then the roles. The package that verifies
-- tokens is a parameter: `verify now token` is the payload of a token that carries the right signature
-- and has not expired at `now`.
-- Source: src/auth/guards/jwt-auth.guard.ts, src/auth/guards/roles.guard.ts,
-- src/auth/strategies/jwt.strategy.ts, src/auth/strategies/local.strategy.ts.
pub mod Entry
use vault_api.Prelude.{
  ℕ, String, Bool, true, false, Option, none, some, List, [], ◌∷◌, ◌||◌, not, ◌==◌, string_eq,
  if◌then◌else◌,
}
use vault_api.Http.Exception.{unauthorized, forbidden, error}
use vault_api.Http.Action.{
  Result, ok, err, Action, ◌>>=◌, ◌>>◌, pure, throw, throw_if, or_throw, gets,
}
use vault_api.Orm.{Repository}
use vault_api.Users.Hashing.{Bcrypt}
use vault_api.Users.Entity.{User, UserRole, role_eq}
use vault_api.Users.{find_by_id}
use vault_api.Auth.{Jwt, JwtPayload, validate_user}

-- `request.user`
pub record Principal : Type 0 where
  pub id : ℕ
  pub email : String
  pub role : UserRole

-- What the decorators `@Public` and `@Roles` say of a route.
pub record Access : Type 0 where
  pub is_public : Bool
  pub required_roles : Option (List UserRole)

abbrev pub Verify : Type 0
Verify = ℕ → String → Option JwtPayload

abbrev pub principal_of : User → Principal
principal_of u = record { id = u.id; email = u.email; role = u.role }

-- `requiredRoles.includes(role)`
unfoldable pub includes : List UserRole → UserRole → Bool
includes [] role = false
includes (r ∷ roles) role = r == role || includes roles role

-- `!user || !user.isActive`
abbrev pub if_active : Option User → Option User
if_active none = none
if_active (some u) = if u.is_active then some u else none

-- `RolesGuard.canActivate`
unfoldable pub roles_guard :
    {S : Type 0} → Option (List UserRole) → Option Principal → Action S (Unit {0})
unfolding includes
roles_guard none user = pure tt
roles_guard (some roles) none = throw (error "Cannot read properties of undefined (reading 'role')")
roles_guard (some roles) (some user) =
    throw_if (not (includes roles user.role)) (forbidden "Insufficient permissions, contact Admin")

module _ {Db : Type 0} (bcrypt : Bcrypt) (users : Repository User Db) where
  -- `LocalStrategy.validate`
  unfoldable pub validate_local : Jwt → String → String → Action Db User
  unfolding validate_user
  validate_local jwt email password = do
    user ← validate_user bcrypt jwt users email password
    or_throw user (unauthorized "Invalid credentials")

  -- `AuthGuard('local')`: passport turns away a request that lacks one of the two texts, a missing
  -- field being empty here, and asks the strategy otherwise.
  unfoldable pub local_guard : Jwt → String → String → Action Db User
  unfolding validate_local
  local_guard jwt email password =
      if email == "" || password == ""
      then throw (unauthorized "Unauthorized")
      else validate_local jwt email password

  -- `JwtStrategy.validate`
  unfoldable pub validate_payload : JwtPayload → Action Db Principal
  unfolding find_by_id
  validate_payload payload = do
    user ←
        or_throw (if_active (← gets (find_by_id bcrypt users payload.sub)))
          (unauthorized "Account is inactive or does not exist")
    pure (principal_of user)

  module _ (verify : Verify) where
    abbrev pub payload_of : ℕ → Option String → Option JwtPayload
    payload_of now none = none
    payload_of now (some token) = verify now token

    -- `JwtAuthGuard.canActivate`, with the answer of passport to a token that is missing or bad.
    unfoldable pub jwt_guard : ℕ → Bool → Option String → Action Db (Option Principal)
    unfolding validate_payload
    jwt_guard now true token = pure none
    jwt_guard now false token = do
      payload ← or_throw (payload_of now token) (unauthorized "Unauthorized")
      user ← validate_payload payload
      pure (some user)

    -- The guards of the module in their order. A controller that names them again runs them a second
    -- time, on the same request.
    unfoldable pub authorise : ℕ → Access → Option String → Action Db (Option Principal)
    unfolding jwt_guard roles_guard
    authorise now access token = do
      user ← jwt_guard now access.is_public token
      roles_guard access.required_roles user
      pure user

-- `user.id`, as a controller reads it.
abbrev pub user_id_of : {S : Type 0} → Option Principal → Action S ℕ
user_id_of none = throw (error "Cannot read properties of undefined (reading 'id')")
user_id_of (some user) = pure user.id

-- A route with no decorator, and one for some roles.
abbrev pub signed_in : Access
signed_in = record { is_public = false; required_roles = none }

abbrev pub for_roles : List UserRole → Access
for_roles roles = record { is_public = false; required_roles = some roles }

abbrev pub open_to_all : Access
open_to_all = record { is_public = true; required_roles = none }
