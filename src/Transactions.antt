-- ===== src/Transactions.antt =====
-- `TransactionsService`: transfers, deposits and withdrawals. Each call works on a copy of the
-- database and either commits it or throws it away; then it keeps a failed record.
-- Nothing else writes to the database while a call runs, and opening the transaction succeeds.
-- Source: src/transactions/transactions.service.ts.
pub mod Entity
pub mod Lawful
pub mod Settlement
pub mod Transfer
pub mod Deposit
pub mod Withdrawal
pub mod Ledger
pub mod Bank
pub mod Funds
pub mod Queries
pub mod Idempotency
pub mod Retries
pub mod Controller
use vault_api.Prelude.{
  ℕ, ◌+◌, ◌/◌, String, Bool, Option, none, some, List, [], ◌∷◌, ◌==◌, ◌!=◌, nat_eq, if◌then◌else◌,
}
use vault_api.Common.Currency.{currency_eq}
use vault_api.Http.Exception.{Exception, not_found, bad_request, get_error_message, to_error}
use vault_api.Http.Action.{
  Result, ok, err, Action, ◌>>=◌, ◌>>◌, pure, throw, throw_if, or_throw, gets, attempt,
}
use vault_api.App.{App, on_db, in_transaction, try_catch, log, emit}
use vault_api.Orm.{Repository}
use vault_api.Events.{transfer_completed, transfer_failed, deposit_completed, withdrawal_completed}
use vault_api.Audit.Entity.{AuditAction, number, string, by_key, by_text}
use vault_api.Accounts.Entity.{Account}
use vault_api.Accounts.{find_one, find_by_account_number, debit_account, credit_account}
use vault_api.Fees.Entity.{FeeConfig}
use vault_api.Fees.{calculate}
use vault_api.Transactions.Entity.{
  Transaction, TransactionType, pending, completed, failed, InitiateTransferDto, DepositDto,
  WithdrawalDto,
}

-- What the environment supplies to a call: the time, the key of the new row, its creation time, and
-- the reference that `generateReference` draws.
pub record Draw : Type 0 where
  pub now : ℕ
  pub id : ℕ
  pub reference : String

-- `a ?? b`
abbrev pub or_default : {A : Type 0} → Option A → A → A
or_default none b = b
or_default (some a) b = a

-- `Math.round(dto.amount * 100)`, from ten-thousandths of a kobo to kobo.
abbrev pub rounded_kobo : ℕ → ℕ
rounded_kobo amount = (amount + 5000) / 10000

-- What the service is built from: three tables, and the commit of a database transaction, which may
-- be refused.
pub record Tables (Db : Type 0) : Type 0 where
  pub accounts : Repository Account Db
  pub transactions : Repository Transaction Db
  pub fees : Repository FeeConfig Db
  pub commit : Db → Result Db

-- The record that a call creates before it touches an account.
abbrev pub transfer_record :
    Draw → InitiateTransferDto → Option String → ℕ → Account → Account → Transaction
transfer_record draw dto idempotency_key fee src dest = record {
  id = draw.id;
  reference = draw.reference;
  type = TransactionType.transfer;
  status = pending;
  amount = dto.amount;
  fee = fee;
  currency = src.currency;
  description = some (or_default dto.description "Transfer");
  metadata = idempotency_key;
  source_account_id = some src.id;
  destination_account_id = some dest.id;
  reversal_of = none;
  failure_reason = none;
  created_at = draw.now;
}

abbrev pub deposit_record : Draw → DepositDto → Account → Transaction
deposit_record draw dto account = record {
  id = draw.id;
  reference = or_default dto.reference draw.reference;
  type = TransactionType.deposit;
  status = pending;
  amount = dto.amount;
  fee = 0;
  currency = account.currency;
  description = some (or_default dto.description "Deposit");
  metadata = none;
  source_account_id = none;
  destination_account_id = some account.id;
  reversal_of = none;
  failure_reason = none;
  created_at = draw.now;
}

abbrev pub withdrawal_record : Draw → WithdrawalDto → Option String → Account → Transaction
withdrawal_record draw dto idempotency_key account = record {
  id = draw.id;
  reference = draw.reference;
  type = TransactionType.withdrawal;
  status = pending;
  amount = dto.amount;
  fee = 0;
  currency = account.currency;
  description = some (or_default dto.description "Withdrawal");
  metadata = idempotency_key;
  source_account_id = some account.id;
  destination_account_id = none;
  reversal_of = none;
  failure_reason = none;
  created_at = draw.now;
}

abbrev pub as_completed : Transaction → Transaction
as_completed tx = record tx { status = completed }

abbrev pub as_failed : Exception → Transaction → Transaction
as_failed e tx = record tx { status = failed; failure_reason = some (get_error_message e) }

module _ {Db : Type 0} (t : Tables Db) where
  -- The frame of each `try` block: the record is saved as pending, the money moves, the record is
  -- saved as completed, and the whole is committed.
  unfoldable pub settle : Transaction → Action Db (Unit {0}) → Action Db Transaction
  settle tx move = do
    attempt (t.transactions.save tx)
    move
    attempt (t.transactions.save (as_completed tx))
    attempt t.commit
    pure (as_completed tx)

  -- The common part of each `catch` block, after the rollback.
  unfoldable pub record_failure : Transaction → Exception → Action (App Db) (Unit {0})
  record_failure tx e = on_db (attempt (t.transactions.save (as_failed e tx)))

  -- The debit and the credit of a transfer.
  unfoldable pub move_money : ℕ → ℕ → ℕ → ℕ → Action Db (Unit {0})
  unfolding debit_account credit_account
  move_money src dest total amount = do
    debit_account t.accounts src total
    credit_account t.accounts dest amount
