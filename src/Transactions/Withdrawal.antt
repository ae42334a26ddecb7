-- ===== src/Transactions/Withdrawal.antt =====
-- `TransactionsService.withdraw`. No fee is asked for, whatever the fee rules say of withdrawals.
-- Source: src/transactions/transactions.service.ts.
pub mod Effect
use vault_api.Prelude.{ℕ, String, Option, none, some, []}
use vault_api.Http.Exception.{Exception, to_error}
use vault_api.Http.Action.{ok, err, Action, ◌>>=◌, ◌>>◌, pure, throw}
use vault_api.App.{App, on_db, in_transaction, try_catch, log, emit}
use vault_api.Events.{withdrawal_completed}
use vault_api.Audit.Entity.{AuditAction, by_key}
use vault_api.Accounts.Entity.{Account}
use vault_api.Accounts.{find_one, debit_account}
use vault_api.Transactions.Entity.{Transaction, WithdrawalDto}
use vault_api.Transactions.{Draw, Tables, withdrawal_record, settle, record_failure}

module _ {Db : Type 0} (t : Tables Db) (draw : Draw) (user_id : ℕ) (dto : WithdrawalDto) where
  -- The part of the `try` block that follows the commit.
  announce : Account → Transaction → Action (App Db) Transaction
  announce account tx = do
    log AuditAction.withdrawal_completed (record {
      user_id = some user_id;
      ip_address = none;
      user_agent = none;
      resource_id = some (by_key tx.id);
      resource_type = some "transaction";
      metadata = [];
      is_suspicious = none;
    })
    emit (
        withdrawal_completed (record {
          transaction_id = tx.id;
          reference = tx.reference;
          account_id = account.id;
          user_id = user_id;
          amount = dto.amount;
          currency = account.currency;
        }))
    pure tx

  -- The `catch` block.
  give_up : Transaction → Exception → Action (App Db) Transaction
  unfolding record_failure
  give_up tx e = do record_failure t tx e; throw (to_error e)

  unfoldable pub execute : Option String → Account → Action (App Db) Transaction
  unfolding announce give_up
  execute idempotency_key account =
      let tx : Transaction = withdrawal_record draw dto idempotency_key account in
      try_catch
        (in_transaction (settle t tx (debit_account t.accounts account.id dto.amount))
          >>= announce account)
        (give_up tx)

  unfoldable pub withdraw : Option String → Action (App Db) Transaction
  withdraw idempotency_key = do
    account ← on_db (find_one t.accounts dto.account_id (some user_id))
    execute idempotency_key account
