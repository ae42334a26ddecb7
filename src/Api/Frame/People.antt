-- ===== src/Api/Frame/People.antt =====
-- Users, their tokens and their PINs.
use vault_api.Prelude.{ℕ, ◌≡◌, String, Option, arith, inl, inr, ◌==◌, nat_eq}
use vault_api.Http.Action.{Result-cases}
use vault_api.App.{App}
use vault_api.Orm.{Repository, IsApart}
use vault_api.Users.Hashing.{Bcrypt}
use vault_api.Users.Entity.{User, hash_password}
use vault_api.Users.{new_user, create, update_refresh_token}
use vault_api.Users.Controller as UsersController
use vault_api.Auth.{Jwt, register, login, refresh_tokens, logout}
use vault_api.Auth.Guards.{Principal, local_guard}
use vault_api.Auth.Controller as AuthController
use vault_api.TransactionPin.{set_pin, change_pin}
use vault_api.TransactionPin.Controller as TransactionPinController
use vault_api.Api.Frame.{SameRows}

module _ {Db : Type 0} (bcrypt : Bcrypt) (users : Repository User Db) {F : Type 0} (key : F → ℕ)
    (others : Repository F Db) (A : IsApart users others) where
  pub users-SameRows :
      (user : Option Principal) (r : UsersController.Route) (db : Db)
      → SameRows key others db (UsersController.handle bcrypt users user r db).1
  unfolding UsersController.handle vault_api.Users.activate vault_api.Users.deactivate
  users-SameRows user (UsersController.get_profile) db j = grind (arith, A.find_one-save)
  users-SameRows user (UsersController.find_all) db j = grind (arith, A.find_one-save)
  users-SameRows user (UsersController.find_one id) db j = grind (arith, A.find_one-save)
  users-SameRows user (UsersController.deactivate id) db j = grind (arith, A.find_one-save)
  users-SameRows user (UsersController.activate id) db j = grind (arith, A.find_one-save)

  local_guard-db :
      (jwt : Jwt) (email password : String) (db : Db)
      → (local_guard bcrypt users jwt email password db).1 ≡ db
  unfolding local_guard vault_api.Auth.Guards.validate_local
  local_guard-db jwt email password db = grind (arith)

  pub auth-SameRows :
      (jwt : Jwt) (now id : ℕ) (password_salt token_salt : String) (user : Option Principal)
      (r : AuthController.Route) (db : Db)
      → SameRows key others db
          (AuthController.handle bcrypt jwt users now id password_salt token_salt user r db).1
  unfolding AuthController.handle register login refresh_tokens logout create update_refresh_token
  auth-SameRows jwt now id password_salt token_salt user (AuthController.register dto) db j =
      let u : User = hash_password bcrypt password_salt (new_user id dto) in
      elim (Result-cases (users.save u db)) [
        | inl (db', saved) ↦
            grind (arith, A.find_one-save u db db' (λ a. key a == j) saved, A.find_one-update)
        | inr (e, refused) ↦ grind (arith)
      ]
  auth-SameRows jwt now id password_salt token_salt user (AuthController.login email password) db
        j =
      let checked = local_guard bcrypt users jwt email password db in
      elim (Result-cases checked.0) [
        | inl (u, right) ↦ grind (arith, A.find_one-update, local_guard-db jwt email password db)
        | inr (e, wrong) ↦ grind (arith, local_guard-db jwt email password db)
      ]
  auth-SameRows jwt now id password_salt token_salt user
        (AuthController.refresh user_id refresh_token) db j =
      grind (arith, A.find_one-save, A.find_one-update)
  auth-SameRows jwt now id password_salt token_salt user (AuthController.logout) db j =
      grind (arith, A.find_one-save, A.find_one-update)

  pub transaction_pin-SameRows :
      (show : ℕ → String) (now later : ℕ) (salt : String) (user : Option Principal)
      (r : TransactionPinController.Route) (s : App Db)
      → SameRows key others s.db
          (TransactionPinController.handle show bcrypt users now later salt user r s).1.db
  unfolding TransactionPinController.handle set_pin change_pin
  transaction_pin-SameRows show now later salt user (TransactionPinController.set_pin dto) s j =
      grind (arith, A.find_one-save, A.find_one-update)
  transaction_pin-SameRows show now later salt user (TransactionPinController.change_pin dto) s j =
      grind (arith, A.find_one-save, A.find_one-update)
  transaction_pin-SameRows show now later salt user (TransactionPinController.verify_pin dto) s j =
      grind (arith, A.find_one-save, A.find_one-update)
