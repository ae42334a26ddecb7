-- ===== src/Admin/Dashboard.antt =====
-- `AdminService`: the figures of the dashboard. `joined` is the column `createdAt` of a user, `day` is
-- PostgreSQL's `TO_CHAR(…, 'YYYY-MM-DD')`; the starts of the day and of the month are the calendar's. A
-- rate is in hundredths of a percent, or in tenths. The orders of the database are parameters.
-- Source: src/admin/admin.service.ts, src/admin/admin.types.ts.
use native.Mathlib.Nat.{mul-le-mul_left, div-lt_iff_lt-mul}
use vault_api.Prelude.{
  ℕ, ◌+◌, ◌*◌, ◌/◌, ◌-◌, ◌≤◌, ◌<◌, zero, suc, ◌≡◌, refl, arith, String, Bool, true, ◌&&◌, List, [],
  ◌∷◌, length, leb, ltb, ◌==◌, string_eq, if◌then◌else◌, Eq,
}
use vault_api.Orm.{Repository}
use vault_api.Accounts.Entity.{Account}
use vault_api.Users.Entity.{User}
use vault_api.Kyc.Entity.{KycSubmission, submitted, approved, submission_status_eq}
use vault_api.Audit.Queries.{StoredAudit, is_suspicious}
use vault_api.Common.Pagination.{take}
use vault_api.Transactions.Entity.{
  Transaction, TransactionType, type_eq, completed, failed, status_eq,
}

-- A row of a query with `GROUP BY`: `COUNT(*)` and `SUM(tx.amount)`.
pub record Group (K : Type 0) : Type 0 where
  pub key : K
  pub count : ℕ
  pub volume : ℕ

module _ {A : Type 0} where
  -- `SUM`
  unfoldable pub sum : (A → ℕ) → List A → ℕ
  sum amount [] = 0
  sum amount (x ∷ rows) = amount x + sum amount rows

module _ {A K : Type 0} ⦃e : Eq K⦄ (key : A → K) (amount : A → ℕ) where
  unfoldable pub add_to : A → List (Group K) → List (Group K)
  add_to x [] = record { key = key x; count = 1; volume = amount x } ∷ []
  add_to x (g ∷ groups) =
      let rest = add_to x groups in
      if g.key == key x
      then record g { count = g.count + 1; volume = g.volume + amount x } ∷ groups
      else g ∷ rest

  unfoldable pub group_by : List A → List (Group K)
  group_by [] = []
  group_by (x ∷ rows) = add_to x (group_by rows)

  add_to_totals :
      (x : A) (groups : List (Group K))
      → (sum (λ g. g.count) (add_to x groups) ≡ 1 + sum (λ g. g.count) groups)
        × (sum (λ g. g.volume) (add_to x groups) ≡ amount x + sum (λ g. g.volume) groups)
  unfolding add_to sum
  add_to_totals x [] = ground arith
  add_to_totals x (g ∷ groups) =
      let (counts, volumes) = add_to_totals x groups in (ground arith, ground arith)

  pub group_by_totals :
      (rows : List A)
      → (sum (λ g. g.count) (group_by rows) ≡ length rows)
        × (sum (λ g. g.volume) (group_by rows) ≡ sum amount rows)
  unfolding group_by sum
  group_by_totals [] = (refl, refl)
  group_by_totals (x ∷ rows) =
      let (counts, volumes) = group_by_totals rows in
      let (one_more, added) = add_to_totals x (group_by rows) in (ground arith, ground arith)

-- The tables of the report.
pub record ReportTables (Db : Type 0) : Type 0 where
  pub users : Repository User Db
  pub accounts : Repository Account Db
  pub transactions : Repository Transaction Db
  pub submissions : Repository KycSubmission Db
  pub audits : Repository StoredAudit Db

-- What comes from the calendar and from the orders of the queries: by date, and newest first.
pub record Calendar : Type 0 where
  pub joined : User → ℕ
  pub day : ℕ → String
  pub start_of_day : ℕ → ℕ
  pub start_of_month : ℕ → ℕ
  pub by_date : List (Group String) → List (Group String)
  pub newest : List StoredAudit → List StoredAudit

pub record DashboardStats : Type 0 where
  pub total_users : ℕ
  pub active_users : ℕ
  pub inactive_users : ℕ
  pub new_users_today : ℕ
  pub new_users_this_month : ℕ
  pub total_accounts : ℕ
  pub total_transactions : ℕ
  pub completed_transactions : ℕ
  pub failed_transactions : ℕ
  pub success_rate : ℕ
  pub today : ℕ
  pub this_month : ℕ
  pub total_volume : ℕ
  pub total_fees : ℕ
  pub monthly_volume : ℕ
  pub by_type : List (Group TransactionType)
  pub daily_volume : List (Group String)
  pub pending_kyc : ℕ
  pub approved_kyc : ℕ
  pub approval_rate : ℕ
  pub suspicious_events : List StoredAudit
  pub generated_at : ℕ

-- `part / whole` in the given fractions, rounded; 0 of nothing.
abbrev pub rate : ℕ → ℕ → ℕ → ℕ
rate scale part whole = if ltb 0 whole then (2 * scale * part + whole) / (2 * whole) else 0

module _ {Db : Type 0} (t : ReportTables Db) (calendar : Calendar) where
  abbrev pub is_completed_since : ℕ → Transaction → Bool
  is_completed_since start x = x.status == completed && leb start x.created_at

  unfoldable pub get_dashboard_stats : ℕ → Db → DashboardStats
  unfolding sum group_by
  get_dashboard_stats now db =
      let start_of_day = calendar.start_of_day now in
      let start_of_month = calendar.start_of_month now in
      let all_users = t.users.find (λ _. true) db in
      let active = t.users.find (λ u. u.is_active) db in
      let transactions = t.transactions.find (λ _. true) db in
      let done = t.transactions.find (λ x. x.status == completed) db in
      let of_month = t.transactions.find (is_completed_since start_of_month) db in
      let recent = t.transactions.find (is_completed_since (now - 30 * 24 * 60 * 60 * 1000)) db in
      let waiting = length (t.submissions.find (λ k. k.status == submitted) db) in
      let passed = length (t.submissions.find (λ k. k.status == approved) db) in
      record {
        total_users = length all_users;
        active_users = length active;
        inactive_users = length all_users - length active;
        new_users_today = length (t.users.find (λ u. leb start_of_day (calendar.joined u)) db);
        new_users_this_month =
            length (t.users.find (λ u. leb start_of_month (calendar.joined u)) db);
        total_accounts = length (t.accounts.find (λ _. true) db);
        total_transactions = length transactions;
        completed_transactions = length done;
        failed_transactions = length (t.transactions.find (λ x. x.status == failed) db);
        success_rate = rate 10000 (length done) (length transactions);
        today = length (t.transactions.find (is_completed_since start_of_day) db);
        this_month = length of_month;
        total_volume = sum (λ x. x.amount) done;
        total_fees = sum (λ x. x.fee) done;
        monthly_volume = sum (λ x. x.amount) of_month;
        by_type = group_by (λ x. x.type) (λ x. x.amount) done;
        daily_volume =
            calendar.by_date (group_by (λ x. calendar.day x.created_at) (λ x. x.amount) recent);
        pending_kyc = waiting;
        approved_kyc = passed;
        approval_rate = rate 1000 passed (passed + waiting);
        suspicious_events = take 10 (calendar.newest (t.audits.find is_suspicious db));
        generated_at = now;
      }

  -- The number of users that joined on each day since then.
  unfoldable pub get_user_growth : ℕ → ℕ → Db → List (Group String)
  unfolding group_by
  get_user_growth now days db = calendar.by_date (
      group_by (λ u. calendar.day (calendar.joined u)) (λ u. 0)
        (t.users.find (λ u. leb (now - days * 24 * 60 * 60 * 1000) (calendar.joined u)) db))

  rate_bounded : (scale part whole : ℕ) → part ≤ whole → rate scale part whole ≤ scale
  rate_bounded scale part zero h = omega arith
  rate_bounded scale part (suc n) h =
      let whole : ℕ = suc n in
      let products : scale * part ≤ scale * whole = mul-le-mul_left scale h in
      let small : 2 * scale * part + whole < (scale + 1) * (2 * whole) = grind (arith, products) in
      let quotient : (2 * scale * part + whole) / (2 * whole) < scale + 1 =
        (div-lt_iff_lt-mul (omega arith)).1 small in
      ground (arith, quotient)

  -- The figures of the dashboard agree with one another: the counts by type add up to the completed
  -- transactions and the volumes by type to the total volume, and the rate of approvals is at most a
  -- hundred percent.
  pub get_dashboard_stats_adds_up :
      (now : ℕ) (db : Db)
      → let stats = get_dashboard_stats now db in
        (sum (λ g. g.count) stats.by_type ≡ stats.completed_transactions)
        × (sum (λ g. g.volume) stats.by_type ≡ stats.total_volume)
        × (stats.approval_rate ≤ 1000)
  unfolding get_dashboard_stats
  get_dashboard_stats_adds_up now db =
      let done = t.transactions.find (λ x. x.status == completed) db in
      let (counts, volumes) = group_by_totals (λ x. x.type) (λ x. x.amount) done in
      (counts, volumes, rate_bounded 1000 _ _ (omega arith))
