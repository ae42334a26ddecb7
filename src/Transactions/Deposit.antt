-- ===== src/Transactions/Deposit.antt =====
-- `TransactionsService.deposit`.
-- Source: src/transactions/transactions.service.ts.
pub mod Effect
use vault_api.Prelude.{none, some, []}
use vault_api.Http.Exception.{Exception, to_error}
use vault_api.Http.Action.{ok, err, Action, ◌>>=◌, ◌>>◌, pure, throw}
use vault_api.App.{App, on_db, in_transaction, try_catch, log, emit}
use vault_api.Events.{deposit_completed}
use vault_api.Audit.Entity.{AuditAction, by_key}
use vault_api.Accounts.Entity.{Account}
use vault_api.Accounts.{find_one, credit_account}
use vault_api.Transactions.Entity.{Transaction, DepositDto}
use vault_api.Transactions.{Draw, Tables, deposit_record, settle, record_failure}

module _ {Db : Type 0} (t : Tables Db) (draw : Draw) (dto : DepositDto) where
  -- The part of the `try` block that follows the commit.
  announce : Account → Transaction → Action (App Db) Transaction
  announce account tx = do
    log AuditAction.deposit_completed (record {
      user_id = some account.user_id;
      ip_address = none;
      user_agent = none;
      resource_id = some (by_key tx.id);
      resource_type = some "transaction";
      metadata = [];
      is_suspicious = none;
    })
    emit (
        deposit_completed (record {
          transaction_id = tx.id;
          reference = tx.reference;
          account_id = account.id;
          user_id = account.user_id;
          amount = dto.amount;
          currency = account.currency;
        }))
    pure tx

  -- The `catch` block.
  give_up : Transaction → Exception → Action (App Db) Transaction
  unfolding record_failure
  give_up tx e = do record_failure t tx e; throw (to_error e)

  unfoldable pub execute : Account → Action (App Db) Transaction
  unfolding announce give_up
  execute account =
      let tx : Transaction = deposit_record draw dto account in
      try_catch
        (in_transaction (settle t tx (credit_account t.accounts account.id dto.amount))
          >>= announce account)
        (give_up tx)

  unfoldable pub deposit : Action (App Db) Transaction
  deposit = do account ← on_db (find_one t.accounts dto.account_id none); execute account
