-- ===== src/Fees/Entity.antt =====
-- The entity `FeeConfig` and its enumerations. The columns hold numbers that are not negative.
-- Source: src/fees/entities/fee-config.entity.ts.
use vault_api.Prelude.{ℕ, String, Option, Eq}
use vault_api.Transactions.Entity.{TransactionType}

pub data FeeType : Type 0 where
  percentage flat tiered : FeeType

unfoldable pub FeeType-discrete : Discrete FeeType
FeeType-discrete = hlevel

instance abbrev pub fee_type_eq : Eq FeeType
fee_type_eq = record { dec = FeeType-discrete }

pub data FeeStatus : Type 0 where
  active inactive : FeeStatus

unfoldable pub FeeStatus-discrete : Discrete FeeStatus
FeeStatus-discrete = hlevel

instance abbrev pub fee_status_eq : Eq FeeStatus
fee_status_eq = record { dec = FeeStatus-discrete }

-- `value` has four decimals and is kept times ten thousand: in ten-thousandths of a per cent, or of a
-- kobo if the fee is flat. The other amounts are in kobo.
pub record FeeConfig : Type 0 where
  pub id : ℕ
  pub name : String
  pub transaction_type : TransactionType
  pub fee_type : FeeType
  pub value : ℕ
  pub cap : ℕ
  pub minimum : ℕ
  pub min_transaction_amount : ℕ
  pub max_transaction_amount : ℕ
  pub status : FeeStatus
  pub priority : ℕ
  pub description : Option String
