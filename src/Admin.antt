-- ===== src/Admin.antt =====
-- `SchedulerService`: the jobs that run by the clock. A job is given the time at which it runs.
-- Source: src/admin/scheduler.service.ts.
pub mod Expiry
pub mod Dashboard
pub mod Controller
use vault_api.Prelude.{ℕ, ◌+◌, ◌*◌, Bool, ◌&&◌, Option, some, ltb, ◌==◌, if◌then◌else◌}
use vault_api.Http.Action.{Action, modify}
use vault_api.Orm.{Repository}
use vault_api.Audit.Queries.{StoredAudit}
use vault_api.Notifications.Entity.{Notification}
use vault_api.Notifications.{delete_old}
use vault_api.Transactions.Entity.{Transaction, pending, failed, status_eq}

-- Thirty minutes, and a year.
abbrev pub stuck_ms : ℕ
stuck_ms = 30 * 60 * 1000

abbrev pub audit_retention_ms : ℕ
audit_retention_ms = 365 * 24 * 60 * 60 * 1000

-- `{ status: PENDING, createdAt: LessThan(cutoff) }`
abbrev pub is_stuck : ℕ → Transaction → Bool
is_stuck now x = x.status == pending && ltb (x.created_at + stuck_ms) now

abbrev pub as_expired : Transaction → Transaction
as_expired x = record x { status = failed; failure_reason = some "Transaction expired — timed out" }

module _ {Db : Type 0} where
  unfoldable pub expire_stuck_transactions : Repository Transaction Db → ℕ → Action Db (Unit {0})
  expire_stuck_transactions transactions now =
      modify (transactions.update (is_stuck now) as_expired)

  unfoldable pub purge_old_notifications : Repository Notification Db → ℕ → Action Db (Unit {0})
  unfolding delete_old
  purge_old_notifications notifications now = delete_old notifications now

  unfoldable pub purge_old_audit_logs : Repository StoredAudit Db → ℕ → Action Db (Unit {0})
  purge_old_audit_logs audits now =
      modify (audits.delete (λ row. ltb (row.created_at + audit_retention_ms) now))
