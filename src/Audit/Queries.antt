-- ===== src/Audit/Queries.antt =====
-- The stored audit entries and their queries. `newest` is the order of the database, newest first.
-- Source: src/audit/audit.service.ts, src/audit/entities/audit-log.entity.ts.
use vault_api.Prelude.{ℕ, Bool, true, false, some, none, List, length, ◌==◌, nat_eq, option_eq}
use vault_api.Orm.{Repository}
use vault_api.Common.Pagination.{skip, take}
use vault_api.Audit.Entity.{AuditLog}

-- A row of the table: its key, the entry and the time of its creation.
pub record StoredAudit : Type 0 where
  pub id : ℕ
  pub entry : AuditLog
  pub created_at : ℕ

-- `isSuspicious`, which is false where the caller gave nothing.
abbrev pub is_suspicious : StoredAudit → Bool
is_suspicious row = elim row.entry.context.is_suspicious [ none ↦ false | some flag ↦ flag ]

module _ {Db : Type 0} (audits : Repository StoredAudit Db)
    (newest : List StoredAudit → List StoredAudit) where
  -- `findAndCount`: a slice, and the number of all rows.
  abbrev slice : ℕ → ℕ → List StoredAudit → List StoredAudit × ℕ
  slice limit offset rows = (take limit (skip offset rows), length rows)

  unfoldable pub find_by_user : ℕ → ℕ → ℕ → Db → List StoredAudit × ℕ
  find_by_user user_id limit offset db =
      slice limit offset
        (newest (audits.find (λ row. row.entry.context.user_id == some user_id) db))

  unfoldable pub find_all : ℕ → ℕ → Db → List StoredAudit × ℕ
  find_all limit offset db = slice limit offset (newest (audits.find (λ _. true) db))

  unfoldable pub find_suspicious : Db → List StoredAudit
  find_suspicious db = take 200 (newest (audits.find is_suspicious db))
