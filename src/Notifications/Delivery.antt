-- ===== src/Notifications/Delivery.antt =====
-- What the users of a transfer are told: the event that the transfer emits, and its listener.
-- Source: src/notifications/notifications.service.ts, src/transactions/transactions.service.ts.
use vault_api.Prelude.{
  ℕ, String, false, Option, none, some, List, [], ◌∷◌, ◌≡◌, ◌≢◌, refl, arith, nat_eq,
}
use vault_api.Http.Action.{ok, Action, ◌>>=◌, pure}
use vault_api.App.{App}
use vault_api.Events.{DomainEvent, transfer_completed}
use vault_api.Orm.{Repository, IsLawful, row}
use vault_api.Orm.Laws.{row-save_self}
use vault_api.Audit.Entity.{number, string, key}
use vault_api.Notifications.Entity.{Notification, transaction_debit}
use vault_api.Notifications.{on_event, notice_of, new_notification}
use vault_api.Transactions.Entity.{Transaction, InitiateTransferDto}
use vault_api.Transactions.{Tables, Draw}
use vault_api.Transactions.Lawful.{AreLawful}
use vault_api.Transactions.Transfer.{transfer}
use vault_api.Transactions.Transfer.Effect.{transfer-ok}

module _ {Db : Type 0} (notifications : Repository Notification Db) where
  -- The listener of the event that was emitted last.
  unfoldable pub on_latest :
      (ℕ → String) → ℕ → ℕ → List DomainEvent → Action Db (Option Notification)
  unfolding on_event
  on_latest in_figures id now [] = pure none
  on_latest in_figures id now (e ∷ earlier) = do
    notice ← on_event notifications in_figures id now e
    pure (some notice)

  -- What stands in the inboxes when the event of a transfer has been handled.
  pub record IsTold (id user_id : ℕ) (amount : ℕ) (tx : Transaction) (before after : Db)
      : Type 0 where
    pub notice : Notification
    pub stored : row (λ n. n.id) notifications id after ≡ some notice
    pub to_sender : notice.user_id ≡ user_id
    pub is_debit : notice.type ≡ transaction_debit
    pub unread : notice.is_read ≡ false
    pub carries :
        notice.payload
        ≡ ("transactionId", key tx.id)
          ∷ ("reference", string tx.reference)
          ∷ ("amount", number amount)
          ∷ []
    pub others :
        (j : ℕ)
        → j ≢ id
        → row (λ n. n.id) notifications j after ≡ row (λ n. n.id) notifications j before

  -- A transfer that returns emits one event, and its listener leaves one unread notice for the sender,
  -- with the transaction, its reference and the amount. Nobody else is told, the receiver neither:
  -- every other row of the inboxes is as it was.
  pub transfer-IsTold :
      (t : Tables Db) (L : AreLawful t) (N : IsLawful (λ n. n.id) notifications)
      (in_figures : ℕ → String) (draw : Draw) (user_id : ℕ) (dto : InitiateTransferDto)
      (header : Option String) (s s' : App Db) (tx : Transaction) (id now : ℕ)
      (notice : Option Notification) (db' : Db)
      → transfer t draw user_id dto header s ≡ (ok tx, s')
      → on_latest in_figures id now s'.events s'.db ≡ (ok notice, db')
      → ((e : DomainEvent) × (s'.events ≡ e ∷ s.events)) × IsTold id user_id dto.amount tx s'.db db'
  unfolding on_latest on_event vault_api.Notifications.create notice_of
  transfer-IsTold t L N in_figures draw user_id dto header s s' tx id now notice db' done handled =
      let d = transfer-ok t L draw user_id dto header s s' tx done in
      let e : DomainEvent = transfer_completed (record {
        transaction_id = draw.id;
        reference = draw.reference;
        sender_id = user_id;
        sender_account_id = d.src.id;
        receiver_account_id = d.dest.id;
        amount = dto.amount;
        fee = d.quote.fee;
        currency = d.src.currency;
      }) in
      let written : Notification = new_notification id now (notice_of in_figures e) in
      let saved : notifications.save written s'.db ≡ ok db' = ground (arith, d.announced) in
      (
        (e, d.announced),
        record {
          notice = written;
          stored = row-save_self (λ n. n.id) notifications N written s'.db db' saved;
          to_sender = refl;
          is_debit = refl;
          unread = refl;
          carries = ground (arith, d.is_done);
          others = λ j other. ground (arith, N.row-save written s'.db db' j saved);
        },
      )
