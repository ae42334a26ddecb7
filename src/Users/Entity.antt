-- ===== src/Users/Entity.antt =====
-- The entity `User` and its enumerations. A column that is null is `none`; `createdAt` and
-- `updatedAt`, which no method reads, and the related accounts, which are queried by their owner, are
-- left out.
-- Source: src/users/entities/user.entity.ts.
use vault_api.Prelude.{
  ℕ, String, Bool, Option, none, some, Eq, ◌==◌, string_eq, if◌then◌else◌, ◌<>◌,
}
use vault_api.Users.Hashing.{Bcrypt}

pub data UserRole : Type 0 where
  customer admin support : UserRole

unfoldable pub UserRole-discrete : Discrete UserRole
UserRole-discrete = hlevel

instance abbrev pub role_eq : Eq UserRole
role_eq = record { dec = UserRole-discrete }

pub data KycStatus : Type 0 where
  pending verified rejected : KycStatus

pub record User : Type 0 where
  pub id : ℕ
  pub email : String
  pub first_name : String
  pub last_name : String
  pub phone_number : Option String
  pub password : String
  pub role : UserRole
  pub kyc_status : KycStatus
  pub is_email_verified : Bool
  pub is_active : Bool
  pub refresh_token : Option String
  pub transaction_pin : Option String

-- What `if (text)` lets through: neither null nor empty.
abbrev pub present : Option String → Option String
present none = none
present (some text) = if text == "" then none else some text

-- `@BeforeInsert() hashPassword`
unfoldable pub hash_password : Bcrypt → String → User → User
hash_password bcrypt salt u = record u { password = bcrypt.hash salt u.password }

unfoldable pub validate_password : Bcrypt → User → String → Bool
validate_password bcrypt u plain_password = bcrypt.compare plain_password u.password

unfoldable pub full_name : User → String
full_name u = u.first_name <> " " <> u.last_name
