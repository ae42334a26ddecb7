-- ===== src/Accounts/Entity.antt =====
-- The entity `Account` and its enumerations. Its relations are the keys that they go by, and the
-- time stamps, which no service of the account reads, are left out.
-- Source: src/accounts/entities/account.entity.ts.
use vault_api.Prelude.{ℕ, String, Eq}
use vault_api.Prelude.Int.{ℤ}
use vault_api.Common.Currency.{Currency}

pub data AccountType : Type 0 where
  savings current wallet : AccountType

pub data AccountStatus : Type 0 where
  active frozen closed : AccountStatus

unfoldable pub AccountStatus-discrete : Discrete AccountStatus
AccountStatus-discrete = hlevel

instance abbrev pub status_eq : Eq AccountStatus
status_eq = record { dec = AccountStatus-discrete }

-- Keys and user ids are UUIDs, 128-bit numbers that the code only compares. The two balances are
-- signed decimals.
pub record Account : Type 0 where
  pub id : ℕ
  pub account_number : String
  pub type : AccountType
  pub status : AccountStatus
  pub currency : Currency
  pub balance : ℤ
  pub ledger_balance : ℤ
  pub user_id : ℕ
