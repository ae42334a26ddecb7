-- ===== src/Transactions/Entity.antt =====
-- The entity `Transaction`, its enumerations and the request bodies. `metadata` is the JSON text
-- `{"idempotencyKey": …}`, kept as the key that it holds; `updatedAt`, which nothing reads, is left
-- out, and the two related accounts are the keys that they go by.
-- Source: src/transactions/entities/transaction.entity.ts, src/transactions/dto/transaction.dto.ts.
use vault_api.Prelude.{ℕ, String, Option, Eq}
use vault_api.Common.Currency.{Currency}

pub data TransactionType : Type 0 where
  transfer deposit withdrawal payment reversal : TransactionType

unfoldable pub TransactionType-discrete : Discrete TransactionType
TransactionType-discrete = hlevel

instance abbrev pub type_eq : Eq TransactionType
type_eq = record { dec = TransactionType-discrete }

pub data TransactionStatus : Type 0 where
  pending processing completed failed reversed : TransactionStatus

unfoldable pub TransactionStatus-discrete : Discrete TransactionStatus
TransactionStatus-discrete = hlevel

instance abbrev pub status_eq : Eq TransactionStatus
status_eq = record { dec = TransactionStatus-discrete }

-- `amount` and `fee` are in ten-thousandths of a kobo.
pub record Transaction : Type 0 where
  pub id : ℕ
  pub reference : String
  pub type : TransactionType
  pub status : TransactionStatus
  pub amount : ℕ
  pub fee : ℕ
  pub currency : Currency
  pub description : Option String
  pub metadata : Option String
  pub source_account_id : Option ℕ
  pub destination_account_id : Option ℕ
  pub reversal_of : Option String
  pub failure_reason : Option String
  pub created_at : ℕ

pub record InitiateTransferDto : Type 0 where
  pub source_account_id : ℕ
  pub destination_account_number : String
  pub amount : ℕ
  pub currency : Option Currency
  pub description : Option String

pub record DepositDto : Type 0 where
  pub account_id : ℕ
  pub amount : ℕ
  pub description : Option String
  pub reference : Option String

pub record WithdrawalDto : Type 0 where
  pub account_id : ℕ
  pub amount : ℕ
  pub description : Option String
