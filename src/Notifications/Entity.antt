-- ===== src/Notifications/Entity.antt =====
-- The entity `Notification` and its enumerations; its `data` is called `payload`.
-- Source: src/notifications/entities/notification.entity.ts.
use vault_api.Prelude.{ℕ, String, Bool, Option, List}
use vault_api.Audit.Entity.{MetadataValue}

pub data NotificationType : Type 0 where
  transaction_credit transaction_debit transaction_failed : NotificationType
  kyc_submitted kyc_approved kyc_rejected : NotificationType
  security_alert system_announcement : NotificationType

pub data NotificationChannel : Type 0 where
  in_app email sms push : NotificationChannel

pub data NotificationStatus : Type 0 where
  pending sent delivered failed read : NotificationStatus

pub record Notification : Type 0 where
  pub id : ℕ
  pub user_id : ℕ
  pub type : NotificationType
  pub channel : NotificationChannel
  pub status : NotificationStatus
  pub title : String
  pub body : String
  pub payload : List (String × MetadataValue)
  pub is_read : Bool
  pub read_at : Option ℕ
  pub created_at : ℕ
