-- ===== src/App.antt =====
-- The state of the running process: the database, what the services keep in memory (the fee rules'
-- cache, the counters of wrong PINs), the entries handed to the audit log and the events emitted,
-- newest first. A service method is an action on it.
use vault_api.Prelude.{ℕ, Option, List, ◌∷◌}
use vault_api.Http.Exception.{Exception}
use vault_api.Http.Action.{ok, err, Action}
use vault_api.Events.{DomainEvent}
use vault_api.Audit.Entity.{AuditLog, AuditAction, AuditContext}
use vault_api.Fees.Entity.{FeeConfig}
use vault_api.TransactionPin.Entity.{Attempts}

pub record App (Db : Type 0) : Type 0 where
  pub db : Db
  pub fee_cache : Option (List FeeConfig)
  pub fee_cache_expiry : ℕ
  pub attempts : List (ℕ × Attempts)
  pub audit : List AuditLog
  pub events : List DomainEvent

-- A call of a repository, outside any database transaction.
abbrev pub on_db : {Db A : Type 0} → Action Db A → Action (App Db) A
on_db m s = let (r, db') = m s.db in (r, record s { db = db' })

-- What runs between `startTransaction` and `commitTransaction`, with the commit as its last step: if
-- it throws, `rollbackTransaction` leaves the database as it was.
abbrev pub in_transaction : {Db A : Type 0} → Action Db A → Action (App Db) A
in_transaction m s =
    let (r, db') = m s.db in elim r [ ok a ↦ (ok a, record s { db = db' }) | err e ↦ (err e, s) ]

-- `try { m } catch (e) { handler }`
abbrev pub try_catch : {S A : Type 0} → Action S A → (Exception → Action S A) → Action S A
try_catch m handler s = let (r, s') = m s in elim r [ ok a ↦ (ok a, s') | err e ↦ handler e s' ]

-- `AuditService.log`, as its callers see it: it neither throws nor waits.
abbrev pub log : {Db : Type 0} → AuditAction → AuditContext → Action (App Db) (Unit {0})
log action context s =
    (ok tt, record s { audit = record { action = action; context = context } ∷ s.audit })

-- `EventEmitter2.emit`
abbrev pub emit : {Db : Type 0} → DomainEvent → Action (App Db) (Unit {0})
emit event s = (ok tt, record s { events = event ∷ s.events })
