-- ===== src/Admin/Expiry.antt =====
-- What the hourly job does to the transactions, and what the purges keep.
use mathlib.Core.Option
use vault_api.Prelude.{
  ℕ, ◌+◌, ◌≤◌, ◌<◌, Bool-cases, ◌≡◌, ◌≢◌, ◌↔◌, refl, arith, Option, none, some, inl, inr,
  Option-cases, ◌==◌, nat_eq, if◌then◌else◌, String, ltb,
}
use vault_api.Http.Action.{ok}
use vault_api.App.{App}
use vault_api.Orm.{Repository, IsLawful, row}
use vault_api.Audit.Queries.{StoredAudit}
use vault_api.Transactions.Entity.{
  Transaction, pending, completed, failed, status_eq, InitiateTransferDto,
}
use vault_api.Transactions.{Draw, Tables}
use vault_api.Transactions.Lawful.{AreLawful}
use vault_api.Transactions.Settlement.{transaction}
use vault_api.Transactions.Transfer.{transfer}
use vault_api.Transactions.Transfer.Effect.{transfer-ok}
use vault_api.Accounts.Debit.{account}
use vault_api.Admin.{is_stuck, as_expired, expire_stuck_transactions, purge_old_audit_logs}

-- What the job leaves where a row was: no row where there was none, a row that is not pending or not
-- more than thirty minutes old as it was, and any other failed, with the reason.
pub data Swept (now : ℕ) : Option Transaction → Option Transaction → Type 0 where
  no_row : Swept now none none
  not_pending : {x : Transaction} → x.status ≢ pending → Swept now (some x) (some x)
  young : {x : Transaction} → now ≤ x.created_at + 1800000 → Swept now (some x) (some x)
  timed_out :
      {x : Transaction}
      → x.status ≡ pending
      → x.created_at + 1800000 < now
      → Swept now (some x) (
          some
            (record x { status = failed; failure_reason = some "Transaction expired — timed out" }))

Swept-as_expired :
    (now : ℕ) (x : Transaction)
    → Swept now (some x) (some (if is_stuck now x then as_expired x else x))
Swept-as_expired now x = elim (Bool-cases (x.status == pending)) [
  | inl waiting ↦ elim (Bool-cases (ltb (x.created_at + 1800000) now)) [
    | inl old ↦ rw (waiting, old) (timed_out (ground arith) (ground arith))
    | inr recent ↦ rw (waiting, recent) (young (ground arith))
  ]
  | inr other ↦ rw other (not_pending (ground arith))
]

module _ {Db : Type 0} (transactions : Repository Transaction Db)
    (L : IsLawful (λ x. x.id) transactions) where
  abbrev stored : ℕ → Db → Option Transaction
  stored = row (λ x. x.id) transactions

  abbrev expired : ℕ → Db → Db
  expired now db = (expire_stuck_transactions transactions now db).1

  -- The hourly job fails exactly the transactions that have been pending for more than thirty minutes,
  -- with the reason "Transaction expired — timed out" and nothing else changed: every other row is as it
  -- was, and no row is lost or added.
  pub expire_stuck_transactions-ok :
      (now i : ℕ) (db : Db) → Swept now (stored i db) (stored i (expired now db))
  unfolding expire_stuck_transactions
  expire_stuck_transactions-ok now i db =
      let after = L.row-update (is_stuck now) as_expired db i (λ _. refl) in
      elim (Option-cases (stored i db)) [
        | inl missing ↦ rw (after, missing) no_row
        | inr (x, found) ↦ rw (after, found) (Swept-as_expired now x)
      ]

module _ {Db : Type 0} (t : Tables Db) (L : AreLawful t) where
  -- The job never touches a transfer that returned, nor any account: its record stays completed, at
  -- whatever time the job runs.
  pub expire_stuck_transactions-transfer :
      (draw : Draw) (user_id : ℕ) (dto : InitiateTransferDto) (key : Option String) (s s' : App Db)
      (tx : Transaction) (now : ℕ)
      → transfer t draw user_id dto key s ≡ (ok tx, s')
      → let db' = (expire_stuck_transactions t.transactions now s'.db).1 in
        (transaction t L tx.id db' ≡ some tx)
        × (tx.status ≡ completed)
        × ((j : ℕ) → account t.accounts j db' ≡ account t.accounts j s'.db)
  unfolding expire_stuck_transactions
  expire_stuck_transactions-transfer draw user_id dto key s s' tx now done =
      let d = transfer-ok t L draw user_id dto key s s' tx done in
      let is_completed : tx.status ≡ completed = ground (arith, d.is_done) in
      let after = L.transactions.row-update (is_stuck now) as_expired s'.db tx.id (λ _. refl) in
      (
        ground (arith, after, d.stored, is_completed),
        is_completed,
        λ j. L.transactions_apart.find_one-update (is_stuck now) as_expired s'.db (λ a. a.id == j),
      )

module _ {Db : Type 0} (audits : Repository StoredAudit Db)
    (L : IsLawful (λ row. row.id) audits) where
  -- The weekly purge removes exactly the entries that are more than a year old.
  pub purge_old_audit_logs-ok :
      (now i : ℕ) (db : Db) (entry : StoredAudit)
      → let db' = (purge_old_audit_logs audits now db).1 in
        (row (λ r. r.id) audits i db' ≡ some entry)
        ↔ ((row (λ r. r.id) audits i db ≡ some entry) × (now ≤ entry.created_at + 31536000000))
  unfolding purge_old_audit_logs Option.bind
  purge_old_audit_logs-ok now i db entry =
      let after = L.row-delete (λ r. ltb (r.created_at + 31536000000) now) db i in
      elim (Option-cases (row (λ r. r.id) audits i db)) [
        | inl missing ↦ ground (arith, after)
        | inr (old, found) ↦ ground (arith, after)
      ]
