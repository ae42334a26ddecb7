-- ===== src/Transactions/Transfer.antt =====
-- `TransactionsService.transfer`.
-- Source: src/transactions/transactions.service.ts.
pub mod Moved
pub mod Effect
use vault_api.Prelude.{
  ℕ, ◌+◌, String, Option, some, List, [], ◌∷◌, ◌==◌, ◌!=◌, nat_eq, if◌then◌else◌,
}
use vault_api.Common.Currency.{currency_eq}
use vault_api.Http.Exception.{Exception, not_found, bad_request, get_error_message, to_error}
use vault_api.Http.Action.{ok, err, Action, ◌>>=◌, ◌>>◌, pure, throw, throw_if, or_throw, gets}
use vault_api.App.{App, on_db, in_transaction, try_catch, log, emit}
use vault_api.Events.{transfer_completed, transfer_failed}
use vault_api.Audit.Entity.{AuditAction, AuditContext, number, string, by_key, by_text}
use vault_api.Accounts.Entity.{Account}
use vault_api.Accounts.{find_one, find_by_account_number}
use vault_api.Fees.{calculate}
use vault_api.Transactions.Entity.{Transaction, TransactionType, InitiateTransferDto}
use vault_api.Transactions.{
  Draw, Tables, rounded_kobo, transfer_record, settle, move_money, record_failure,
}
use vault_api.Prelude.{none}

module _ {Db : Type 0} (t : Tables Db) (draw : Draw) (user_id : ℕ) (dto : InitiateTransferDto) where
  -- The part of the `try` block that follows the commit.
  announce : Account → Account → Transaction → Action (App Db) Transaction
  announce src dest tx = do
    log AuditAction.transfer_completed (record {
      user_id = some user_id;
      ip_address = none;
      user_agent = none;
      resource_id = some (by_key tx.id);
      resource_type = some "transaction";
      metadata = [];
      is_suspicious = none;
    })
    emit (
        transfer_completed (record {
          transaction_id = tx.id;
          reference = tx.reference;
          sender_id = user_id;
          sender_account_id = src.id;
          receiver_account_id = dest.id;
          amount = dto.amount;
          fee = tx.fee;
          currency = src.currency;
        }))
    pure tx

  -- The `catch` block.
  give_up : Transaction → Exception → Action (App Db) Transaction
  unfolding record_failure
  give_up tx e = do
    record_failure t tx e
    log AuditAction.transfer_failed (record {
      user_id = some user_id;
      ip_address = none;
      user_agent = none;
      resource_id = some (by_text tx.reference);
      resource_type = some "transaction";
      metadata = ("reason", string (get_error_message e)) ∷ [];
      is_suspicious = none;
    })
    emit (
        transfer_failed (record {
          reference = tx.reference;
          user_id = user_id;
          amount = dto.amount;
          reason = get_error_message e;
        }))
    throw (to_error e)

  -- From the creation of the record on.
  unfoldable pub execute : Option String → Account → Account → ℕ → Action (App Db) Transaction
  unfolding announce give_up
  execute idempotency_key src dest fee =
      let tx : Transaction = transfer_record draw dto idempotency_key fee src dest in
      do
        log AuditAction.transfer_initiated (record {
          user_id = some user_id;
          ip_address = none;
          user_agent = none;
          resource_id = some (by_text tx.reference);
          resource_type = some "transaction";
          metadata =
              ("amount", number dto.amount)
              ∷ ("fee", number fee)
              ∷ ("destination", string dto.destination_account_number)
              ∷ [];
          is_suspicious = none;
        })
        try_catch
            (in_transaction
                (settle t tx (move_money t src.id dest.id (dto.amount + fee) dto.amount))
              >>= announce src dest)
            (give_up tx)

  unfoldable pub transfer : Option String → Action (App Db) Transaction
  transfer idempotency_key = do
    src ← on_db (find_one t.accounts dto.source_account_id (some user_id))
    dest ←
        or_throw
          (← gets (λ s. find_by_account_number t.accounts dto.destination_account_number s.db))
          (not_found "Destination account not found")
    throw_if (src.id == dest.id) (bad_request "Cannot transfer to the same account")
    throw_if (src.currency != dest.currency) (bad_request "Cross-currency transfers not supported")
    fee ← calculate t.fees draw.now TransactionType.transfer (rounded_kobo dto.amount)
    execute idempotency_key src dest fee.fee
