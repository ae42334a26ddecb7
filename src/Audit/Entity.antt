-- ===== src/Audit/Entity.antt =====
-- The actions that are audited, and what a caller hands to `AuditService.log`.
-- Source: src/audit/entities/audit-log.entity.ts, src/audit/audit.service.ts.
use vault_api.Prelude.{ℕ, String, Bool, Option, List}

pub data AuditAction : Type 0 where
  user_registered user_login user_logout user_login_failed token_refreshed : AuditAction
  account_created account_frozen account_unfrozen account_closed : AuditAction
  transfer_initiated transfer_completed transfer_failed : AuditAction
  deposit_completed withdrawal_completed : AuditAction
  kyc_submitted kyc_approved kyc_rejected : AuditAction
  user_deactivated wallet_upgraded : AuditAction

-- A value in the JSON of `metadata`.
pub data MetadataValue : Type 0 where
  number : ℕ → MetadataValue
  string : String → MetadataValue
  key : ℕ → MetadataValue
  undefined : MetadataValue

-- What an entry is about: a row's key, or a text such as a reference.
pub data ResourceId : Type 0 where
  by_key : ℕ → ResourceId
  by_text : String → ResourceId

pub record AuditContext : Type 0 where
  pub user_id : Option ℕ
  pub ip_address : Option String
  pub user_agent : Option String
  pub resource_id : Option ResourceId
  pub resource_type : Option String
  pub metadata : List (String × MetadataValue)
  pub is_suspicious : Option Bool

-- The columns that are not given are null, and `isSuspicious` is false by default.
pub record AuditLog : Type 0 where
  pub action : AuditAction
  pub context : AuditContext
