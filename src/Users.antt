-- ===== src/Users.antt =====
-- `UsersService`. The salt that bcrypt draws and the key of a new row are arguments. `findAll`'s
-- choice of columns is left out, and so are the related accounts that `findById` loads.
-- Source: src/users/users.service.ts, src/auth/dto/auth.dto.ts.
pub mod Hashing
pub mod Entity
pub mod Controller
use vault_api.Prelude.{
  ℕ, String, Bool, true, false, Option, none, some, List, ◌==◌, nat_eq, string_eq, if◌then◌else◌,
}
use vault_api.Http.Exception.{not_found}
use vault_api.Http.Action.{Result, Action, ◌>>=◌, ◌>>◌, pure, or_throw, gets, modify, attempt}
use vault_api.Orm.{Repository}
use vault_api.Users.Hashing.{Bcrypt}
use vault_api.Users.Entity.{User, UserRole, customer, pending, present, hash_password}

pub record RegisterDto : Type 0 where
  pub email : String
  pub first_name : String
  pub last_name : String
  pub password : String
  pub phone_number : Option String

abbrev pub new_user : ℕ → RegisterDto → User
new_user id dto = record {
  id = id;
  email = dto.email;
  first_name = dto.first_name;
  last_name = dto.last_name;
  phone_number = dto.phone_number;
  password = dto.password;
  role = customer;
  kyc_status = pending;
  is_email_verified = false;
  is_active = true;
  refresh_token = none;
  transaction_pin = none;
}

module _ {Db : Type 0} (bcrypt : Bcrypt) (users : Repository User Db) where
  unfoldable pub create : ℕ → String → RegisterDto → Action Db User
  create id salt dto =
      let user : User = hash_password bcrypt salt (new_user id dto) in
      do attempt (users.save user); pure user

  unfoldable pub find_by_id : ℕ → Db → Option User
  find_by_id id = users.find_one (λ u. u.id == id)

  unfoldable pub find_by_email : String → Db → Option User
  find_by_email email = users.find_one (λ u. u.email == email)

  -- For a null token the update is `{ refreshToken: undefined }`, and TypeORM leaves a column that is
  -- undefined as it is.
  unfoldable pub update_refresh_token : String → ℕ → Option String → Action Db (Unit {0})
  update_refresh_token salt user_id refresh_token = elim (present refresh_token) [
    | none ↦ modify (users.update (λ u. u.id == user_id) (λ u. u))
    | some token ↦ modify (
        users.update (λ u. u.id == user_id)
          (λ u. record u { refresh_token = some (bcrypt.hash salt token) }))
  ]

  unfoldable pub find_all : Db → List User
  find_all = users.find (λ _. true)

  set_active : Bool → ℕ → Action Db User
  unfolding find_by_id
  set_active flag id = do
    user ← or_throw (← gets (find_by_id id)) (not_found "User not found")
    let user' = record user { is_active = flag }
    attempt (users.save user')
    pure user'

  unfoldable pub deactivate : ℕ → Action Db User
  unfolding set_active
  deactivate = set_active false

  unfoldable pub activate : ℕ → Action Db User
  unfolding set_active
  activate = set_active true

  unfoldable pub update_role : ℕ → UserRole → Action Db (Unit {0})
  update_role id role = modify (users.update (λ u. u.id == id) (λ u. record u { role = role }))
