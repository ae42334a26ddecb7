-- ===== src/Beneficiaries.antt =====
-- `BeneficiariesService` and its entity. The key of a new row and the clock's reading are arguments;
-- the order that `findAll` asks of the database is left out.
-- Source: src/beneficiaries/beneficiaries.service.ts, src/beneficiaries/entities/beneficiary.entity.ts.
pub mod Removal
pub mod Controller
use vault_api.Prelude.{
  ℕ, String, ◌+◌, Bool, true, false, ◌&&◌, Option, none, some, List, ◌==◌, ◌!=◌, nat_eq, string_eq,
  if◌then◌else◌,
}
use vault_api.Http.Exception.{not_found, forbidden, conflict}
use vault_api.Http.Action.{
  Result, ok, err, Action, ◌>>=◌, ◌>>◌, pure, throw_if, or_throw, gets, attempt,
}
use vault_api.Orm.{Repository}

pub record Beneficiary : Type 0 where
  pub id : ℕ
  pub user_id : ℕ
  pub account_number : String
  pub account_name : String
  pub bank_name : Option String
  pub bank_code : Option String
  pub nickname : Option String
  pub transfer_count : ℕ
  pub last_transfer_at : Option ℕ
  pub is_active : Bool

pub record CreateBeneficiaryDto : Type 0 where
  pub account_number : String
  pub account_name : String
  pub bank_name : Option String
  pub bank_code : Option String
  pub nickname : Option String

-- `Partial<CreateBeneficiaryDto>`
pub record UpdateBeneficiaryDto : Type 0 where
  pub account_number : Option String
  pub account_name : Option String
  pub bank_name : Option String
  pub bank_code : Option String
  pub nickname : Option String

abbrev pub new_beneficiary : ℕ → ℕ → CreateBeneficiaryDto → Beneficiary
new_beneficiary id user_id dto = record {
  id = id;
  user_id = user_id;
  account_number = dto.account_number;
  account_name = dto.account_name;
  bank_name = dto.bank_name;
  bank_code = dto.bank_code;
  nickname = dto.nickname;
  transfer_count = 0;
  last_transfer_at = none;
  is_active = true;
}

abbrev or_old : String → Option String → String
or_old old none = old
or_old old (some new) = new

abbrev or_kept : Option String → Option String → Option String
or_kept old none = old
or_kept old (some new) = some new

-- `Object.assign(b, dto)`
abbrev pub assigned : UpdateBeneficiaryDto → Beneficiary → Beneficiary
assigned dto b = record b {
  account_number = or_old b.account_number dto.account_number;
  account_name = or_old b.account_name dto.account_name;
  bank_name = or_kept b.bank_name dto.bank_name;
  bank_code = or_kept b.bank_code dto.bank_code;
  nickname = or_kept b.nickname dto.nickname;
}

module _ {Db : Type 0} (beneficiaries : Repository Beneficiary Db) where
  -- `findOne({ where: { userId, accountNumber } })`
  abbrev pub saved_for : ℕ → String → Db → Option Beneficiary
  saved_for user_id number =
      beneficiaries.find_one (λ b. b.user_id == user_id && b.account_number == number)

  unfoldable pub create : ℕ → ℕ → CreateBeneficiaryDto → Action Db Beneficiary
  create id user_id dto db = elim (saved_for user_id dto.account_number db) [
    | some existing ↦ (err (conflict "Beneficiary with this account number already saved"), db)
    | none ↦
        (attempt (beneficiaries.save (new_beneficiary id user_id dto))
            >> pure (new_beneficiary id user_id dto))
          db
  ]

  unfoldable pub find_all : ℕ → Db → List Beneficiary
  find_all user_id = beneficiaries.find (λ b. b.user_id == user_id && b.is_active)

  unfoldable pub find_one : ℕ → ℕ → Action Db Beneficiary
  find_one id user_id = do
    b ←
        or_throw (← gets (beneficiaries.find_one (λ b. b.id == id)))
          (not_found "Beneficiary not found")
    throw_if (b.user_id != user_id) (forbidden "Access denied")
    pure b

  unfoldable pub update : ℕ → ℕ → UpdateBeneficiaryDto → Action Db Beneficiary
  unfolding find_one
  update id user_id dto = do
    b ← find_one id user_id
    attempt (beneficiaries.save (assigned dto b))
    pure (assigned dto b)

  unfoldable pub remove : ℕ → ℕ → Action Db (Unit {0})
  unfolding find_one
  remove id user_id = do
    b ← find_one id user_id
    attempt (beneficiaries.save (record b { is_active = false }))

  unfoldable pub record_transfer : ℕ → ℕ → String → Action Db (Unit {0})
  record_transfer now user_id number db = elim (saved_for user_id number db) [
    | none ↦ (ok tt, db)
    | some b ↦
        attempt
          (beneficiaries.save
            (record b { transfer_count = b.transfer_count + 1; last_transfer_at = some now }))
          db
  ]
