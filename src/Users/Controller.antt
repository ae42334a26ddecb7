-- ===== src/Users/Controller.antt =====
-- `UsersController`. A user that is not found is answered as null.
-- Source: src/users/users.controller.ts.
use vault_api.Prelude.{ℕ, Option, List, [], ◌∷◌}
use vault_api.Http.Action.{Action, ◌>>=◌, gets}
use vault_api.Orm.{Repository}
use vault_api.Users.Hashing.{Bcrypt}
use vault_api.Users.Entity.{User, admin, support}
use vault_api.Users.{find_by_id}
use vault_api.Auth.Guards.{Principal, Access, signed_in, for_roles, user_id_of}

pub data Route : Type 0 where
  get_profile : Route
  find_all : Route
  find_one : ℕ → Route
  deactivate : ℕ → Route
  activate : ℕ → Route

unfoldable pub access : Route → Access
access get_profile = signed_in
access (find_one id) = for_roles (admin ∷ support ∷ [])
access _ = for_roles (admin ∷ [])

abbrev pub Reply : Route → Type 0
Reply get_profile = Option User
Reply find_all = List User
Reply (find_one id) = Option User
Reply _ = User

module _ {Db : Type 0} (bcrypt : Bcrypt) (users : Repository User Db) where
  unfoldable pub handle : Option Principal → (route : Route) → Action Db (Reply route)
  handle user get_profile = user_id_of user >>= λ u. gets (find_by_id bcrypt users u)
  handle user find_all = gets (vault_api.Users.find_all bcrypt users)
  handle user (find_one id) = gets (find_by_id bcrypt users id)
  handle user (deactivate id) = vault_api.Users.deactivate bcrypt users id
  handle user (activate id) = vault_api.Users.activate bcrypt users id
