-- ===== src/Notifications.antt =====
-- `NotificationsService`: one listener for each domain event, and the inbox of a user. The key of a
-- new row and the clock's readings are arguments; `in_figures` is `toLocaleString` and `currency_text`
-- the text of a currency, which JavaScript has built in or the enumeration holds.
-- Source: src/notifications/notifications.service.ts.
pub mod Entity
pub mod Inbox
pub mod Delivery
pub mod Controller
use vault_api.Prelude.{
  ℕ, String, ◌+◌, ◌-◌, ◌*◌, ◌<>◌, Bool, true, false, not, ◌&&◌, Option, none, some, List, [], ◌∷◌,
  length, ltb, ◌==◌, ◌!=◌, nat_eq, if◌then◌else◌,
}
use vault_api.Common.Currency.{Currency, ngn, usd, gbp, eur}
use vault_api.Common.Pagination.{PaginatedResult, page_of}
use vault_api.Http.Exception.{not_found, forbidden}
use vault_api.Http.Action.{
  Result, ok, err, Action, ◌>>=◌, ◌>>◌, pure, throw_if, or_throw, gets, modify, attempt,
}
use vault_api.Orm.{Repository}
use vault_api.Audit.Entity.{MetadataValue, number, string, key}
use vault_api.Events.{
  DomainEvent, user_registered, transfer_completed, transfer_failed, deposit_completed,
  withdrawal_completed,
}
use vault_api.Notifications.Entity.{
  Notification, NotificationType, transaction_credit, transaction_debit, transaction_failed,
  system_announcement, in_app, NotificationStatus, sent, read,
}

unfoldable pub currency_text : Currency → String
currency_text ngn = "NGN"
currency_text usd = "USD"
currency_text gbp = "GBP"
currency_text eur = "EUR"

-- What a listener hands to `create`.
pub record Notice : Type 0 where
  pub user_id : ℕ
  pub type : NotificationType
  pub title : String
  pub body : String
  pub payload : List (String × MetadataValue)

-- The body of each `@OnEvent` method.
unfoldable pub notice_of : (ℕ → String) → DomainEvent → Notice
notice_of in_figures (user_registered e) = record {
  user_id = e.user_id;
  type = system_announcement;
  title = "Welcome, " <> e.first_name <> "! 🎉";
  body = "Your account is ready. Complete KYC to unlock higher limits.";
  payload = [];
}
notice_of in_figures (transfer_completed e) = record {
  user_id = e.sender_id;
  type = transaction_debit;
  title = "Transfer Successful";
  body =
      "You sent "
      <> currency_text e.currency
      <> " "
      <> in_figures e.amount
      <> ". Ref: "
      <> e.reference;
  payload =
      ("transactionId", key e.transaction_id)
      ∷ ("reference", string e.reference)
      ∷ ("amount", number e.amount)
      ∷ [];
}
notice_of in_figures (transfer_failed e) = record {
  user_id = e.user_id;
  type = transaction_failed;
  title = "Transfer Failed";
  body = "Your transfer of " <> in_figures e.amount <> " could not be completed. " <> e.reason;
  payload = ("reference", string e.reference) ∷ ("reason", string e.reason) ∷ [];
}
notice_of in_figures (deposit_completed e) = record {
  user_id = e.user_id;
  type = transaction_credit;
  title = "Account Credited";
  body =
      currency_text e.currency
      <> " "
      <> in_figures e.amount
      <> " has been added to your account. Ref: "
      <> e.reference;
  payload = ("transactionId", key e.transaction_id) ∷ ("amount", number e.amount) ∷ [];
}
notice_of in_figures (withdrawal_completed e) = record {
  user_id = e.user_id;
  type = transaction_debit;
  title = "Withdrawal Successful";
  body =
      currency_text e.currency
      <> " "
      <> in_figures e.amount
      <> " has been withdrawn. Ref: "
      <> e.reference;
  payload = ("transactionId", key e.transaction_id) ∷ ("amount", number e.amount) ∷ [];
}
notice_of in_figures (DomainEvent.kyc_submitted e) = record {
  user_id = e.user_id;
  type = NotificationType.kyc_submitted;
  title = "KYC Under Review";
  body =
      "Your documents have been received and are under review. We will notify you within 24 hours.";
  payload = ("submissionId", key e.submission_id) ∷ [];
}
notice_of in_figures (DomainEvent.kyc_approved e) = record {
  user_id = e.user_id;
  type = NotificationType.kyc_approved;
  title = "KYC Approved";
  body = "Your identity has been verified. Your wallet limits have been upgraded to Standard tier.";
  payload = ("submissionId", key e.submission_id) ∷ [];
}
notice_of in_figures (DomainEvent.kyc_rejected e) = record {
  user_id = e.user_id;
  type = NotificationType.kyc_rejected;
  title = "KYC Rejected";
  body =
      "Your KYC submission was not approved. Reason: " <> e.reason
      <> ". Please re-submit with correct documents.";
  payload = ("submissionId", key e.submission_id) ∷ ("reason", string e.reason) ∷ [];
}

abbrev pub new_notification : ℕ → ℕ → Notice → Notification
new_notification id now n = record {
  id = id;
  user_id = n.user_id;
  type = n.type;
  channel = in_app;
  status = sent;
  title = n.title;
  body = n.body;
  payload = n.payload;
  is_read = false;
  read_at = none;
  created_at = now;
}

abbrev pub as_read : ℕ → Notification → Notification
as_read now n = record n { is_read = true; read_at = some now; status = read }

abbrev pub retention_ms : ℕ
retention_ms = 90 * 24 * 60 * 60 * 1000

module _ {Db : Type 0} (notifications : Repository Notification Db) where
  unfoldable pub create : ℕ → ℕ → Notice → Action Db Notification
  create id now n = do
    attempt (notifications.save (new_notification id now n))
    pure (new_notification id now n)

  unfoldable pub on_event : (ℕ → String) → ℕ → ℕ → DomainEvent → Action Db Notification
  unfolding create
  on_event in_figures id now e = create id now (notice_of in_figures e)

  abbrev pub is_unread : ℕ → Notification → Bool
  is_unread user_id n = n.user_id == user_id && not n.is_read

  unfoldable pub count_unread : ℕ → Db → ℕ
  count_unread user_id db = length (notifications.find (is_unread user_id) db)

  -- A page of the inbox and the number of unread; `sorted` is the order of the database, newest
  -- first.
  unfoldable pub find_for_user :
      (List Notification → List Notification)
      → ℕ
      → ℕ
      → ℕ
      → Bool
      → Db
      → PaginatedResult Notification × ℕ
  unfolding count_unread
  find_for_user sorted user_id page limit unread_only db =
      let mine : Notification → Bool =
        if unread_only then is_unread user_id else λ n. n.user_id == user_id in
      let result = page_of 50 (sorted (notifications.find mine db)) page limit in
      (result, if unread_only then result.total else count_unread user_id db)

  unfoldable pub mark_as_read : ℕ → ℕ → ℕ → Action Db Notification
  mark_as_read now id user_id = do
    n ←
        or_throw (← gets (notifications.find_one (λ n. n.id == id)))
          (not_found "Notification not found")
    throw_if (n.user_id != user_id) (forbidden "Access denied")
    attempt (notifications.save (as_read now n))
    pure (as_read now n)

  -- The answer is the number of rows that the update reached.
  unfoldable pub mark_all_as_read : ℕ → ℕ → Action Db ℕ
  unfolding count_unread
  mark_all_as_read now user_id = do
    updated ← gets (count_unread user_id)
    modify (notifications.update (is_unread user_id) (as_read now))
    pure updated

  unfoldable pub delete_old : ℕ → Action Db (Unit {0})
  delete_old now =
      modify (notifications.delete (λ n. ltb (n.created_at + retention_ms) now && n.is_read))
