-- ===== src/Events.antt =====
-- The domain events that the services emit and `NotificationsService` listens to.
-- Source: src/events/domain-events.ts.
use vault_api.Prelude.{ℕ, String}
use vault_api.Common.Currency.{Currency}

pub record UserRegisteredEvent : Type 0 where
  pub user_id : ℕ
  pub email : String
  pub first_name : String

pub record TransferCompletedEvent : Type 0 where
  pub transaction_id : ℕ
  pub reference : String
  pub sender_id : ℕ
  pub sender_account_id : ℕ
  pub receiver_account_id : ℕ
  pub amount : ℕ
  pub fee : ℕ
  pub currency : Currency

pub record TransferFailedEvent : Type 0 where
  pub reference : String
  pub user_id : ℕ
  pub amount : ℕ
  pub reason : String

-- A deposit and a withdrawal carry the same fields.
pub record DepositCompletedEvent : Type 0 where
  pub transaction_id : ℕ
  pub reference : String
  pub account_id : ℕ
  pub user_id : ℕ
  pub amount : ℕ
  pub currency : Currency

pub record WithdrawalCompletedEvent : Type 0 where
  pub transaction_id : ℕ
  pub reference : String
  pub account_id : ℕ
  pub user_id : ℕ
  pub amount : ℕ
  pub currency : Currency

pub record KycSubmittedEvent : Type 0 where
  pub submission_id : ℕ
  pub user_id : ℕ
  pub document_type : String

pub record KycApprovedEvent : Type 0 where
  pub submission_id : ℕ
  pub user_id : ℕ

pub record KycRejectedEvent : Type 0 where
  pub submission_id : ℕ
  pub user_id : ℕ
  pub reason : String

-- The names of `EVENTS` that have a listener, each with its payload.
pub data DomainEvent : Type 0 where
  user_registered : UserRegisteredEvent → DomainEvent
  transfer_completed : TransferCompletedEvent → DomainEvent
  transfer_failed : TransferFailedEvent → DomainEvent
  deposit_completed : DepositCompletedEvent → DomainEvent
  withdrawal_completed : WithdrawalCompletedEvent → DomainEvent
  kyc_submitted : KycSubmittedEvent → DomainEvent
  kyc_approved : KycApprovedEvent → DomainEvent
  kyc_rejected : KycRejectedEvent → DomainEvent
