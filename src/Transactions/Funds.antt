-- ===== src/Transactions/Funds.antt =====
-- When a transfer goes through: as long as the database refuses nothing, that is decided by the
-- accounts alone.
use mathlib.Core.Path.{subst}
use vault_api.Prelude.{
  ℕ, ◌+◌, ◌≡◌, ◌≢◌, sym, ◌∙◌, inl, inr, true, false, Bool-cases, ◌!=◌, Option, some, String, arith,
  ◌==◌, nat_eq, string_eq, if◌then◌else◌,
}
use vault_api.Prelude.Int.{pos, ◌≤ℤ◌, ltb_ℤ}
use vault_api.Http.Exception.{Exception, bad_request, to_error}
use vault_api.Http.Action.{Result, ok, err, Action}
use vault_api.App.{App}
use vault_api.Orm.Laws.{row-id}
use vault_api.Accounts.Entity.{Account, active, status_eq}
use vault_api.Accounts.{find_one, find_by_account_number}
use vault_api.Accounts.Debit.{
  account, debited, credited, debit_account_covered, credit_account_known,
}
use vault_api.Fees.{calculate}
use vault_api.Fees.Calculation.{FeeCalculation}
use vault_api.Fees.Cache.{calculate-db}
use vault_api.Transactions.Entity.{Transaction, TransactionType, InitiateTransferDto}
use vault_api.Transactions.{
  Draw, Tables, rounded_kobo, transfer_record, as_completed, as_failed, settle, move_money,
}
use vault_api.Transactions.Lawful.{AreLawful}
use vault_api.Transactions.Transfer.{execute, transfer}

-- The database refuses no write and no commit.
pub record AreAvailable {Db : Type 0} (t : Tables Db) : Type 0 where
  pub account_saved : (a : Account) (db : Db) → (db' : Db) × (t.accounts.save a db ≡ ok db')
  pub transaction_saved :
      (x : Transaction) (db : Db) → (db' : Db) × (t.transactions.save x db ≡ ok db')
  pub committed : (db : Db) → t.commit db ≡ ok db

-- What a debit of the source answers.
abbrev pub verdict : Account → ℕ → Transaction → Result Transaction
verdict src total done =
    if src.status != active
    then err (bad_request "Account is not active")
    else if ltb_ℤ src.balance (pos total)
    then err (bad_request "Insufficient funds")
    else ok done

module _ {Db : Type 0} (t : Tables Db) (L : AreLawful t) (A : AreAvailable t) where
  saved_as_pending : Transaction → Db → Db
  saved_as_pending tx db = (A.transaction_saved tx db).0

  settle_through :
      (tx : Transaction) (move : Action Db (Unit {0})) (db moved : Db)
      → move (saved_as_pending tx db) ≡ (ok tt, moved)
      → (settle t tx move db).0 ≡ ok (as_completed tx)
  unfolding settle saved_as_pending
  settle_through tx move db moved h = ground (
    arith,
    (A.transaction_saved tx db).1,
    (A.transaction_saved (as_completed tx) moved).1,
    A.committed (A.transaction_saved (as_completed tx) moved).0,
  )

  settle_stopped :
      (tx : Transaction) (move : Action Db (Unit {0})) (db moved : Db) (e : Exception)
      → move (saved_as_pending tx db) ≡ (err e, moved)
      → (settle t tx move db).0 ≡ err e
  unfolding settle saved_as_pending
  settle_stopped tx move db moved e h = ground (arith, (A.transaction_saved tx db).1)

  saved_as_pending-account :
      (tx : Transaction) (db : Db) (j : ℕ)
      → account t.accounts j (saved_as_pending tx db) ≡ account t.accounts j db
  unfolding saved_as_pending
  saved_as_pending-account tx db j =
      L.transactions_apart.find_one-save tx db _ (λ a. a.id == j) (A.transaction_saved tx db).1

  move_money_covered :
      (src dest : Account) (total amount : ℕ) (db : Db)
      → src.id ≢ dest.id
      → account t.accounts src.id db ≡ some src
      → account t.accounts dest.id db ≡ some dest
      → src.status ≡ active
      → pos total ≤ℤ src.balance
      → (db' : Db) × (move_money t src.id dest.id total amount db ≡ (ok tt, db'))
  unfolding move_money
  move_money_covered src dest total amount db apart src_row dest_row live cover =
      let (middle, first) = A.account_saved (debited total src) db in
      let (after, second) = A.account_saved (credited amount dest) middle in
      (
        after,
        ground (
          arith,
          debit_account_covered t.accounts L.accounts src.id total db middle src src_row live cover
              first,
          L.accounts.row-save (debited total src) db middle dest.id first,
          credit_account_known t.accounts L.accounts dest.id amount middle after dest,
        ),
      )

  move_money_inactive :
      (src dest : Account) (total amount : ℕ) (db : Db)
      → account t.accounts src.id db ≡ some src
      → (src.status != active) ≡ true
      → move_money t src.id dest.id total amount db
        ≡ (err (bad_request "Account is not active"), db)
  unfolding move_money
  move_money_inactive src dest total amount db src_row cold = ground arith

  move_money_short :
      (src dest : Account) (total amount : ℕ) (db : Db)
      → account t.accounts src.id db ≡ some src
      → (src.status != active) ≡ false
      → ltb_ℤ src.balance (pos total) ≡ true
      → move_money t src.id dest.id total amount db ≡ (err (bad_request "Insufficient funds"), db)
  unfolding move_money
  move_money_short src dest total amount db src_row live short = ground arith

  module _ (draw : Draw) (user_id : ℕ) (dto : InitiateTransferDto) (key : Option String)
      (src dest : Account) (apart : src.id ≢ dest.id) where
    settle-verdict :
        (fee : ℕ) (db : Db)
        → account t.accounts src.id db ≡ some src
        → account t.accounts dest.id db ≡ some dest
        → let tx = transfer_record draw dto key fee src dest in
          (settle t tx (move_money t src.id dest.id (dto.amount + fee) dto.amount) db).0
          ≡ verdict src (dto.amount + fee) (as_completed tx)
    settle-verdict fee db src_row dest_row =
        let tx : Transaction = transfer_record draw dto key fee src dest in
        let total : ℕ = dto.amount + fee in
        let move : Action Db (Unit {0}) = move_money t src.id dest.id total dto.amount in
        let pending_db : Db = saved_as_pending tx db in
        let src_row' : account t.accounts src.id pending_db ≡ some src =
          saved_as_pending-account tx db src.id ∙ src_row in
        let dest_row' : account t.accounts dest.id pending_db ≡ some dest =
          saved_as_pending-account tx db dest.id ∙ dest_row in
        elim (Bool-cases (src.status != active)) [
          | inl cold ↦ rw cold (
              settle_stopped tx move db pending_db _
                (move_money_inactive src dest total dto.amount pending_db src_row' cold))
          | inr live ↦ elim (Bool-cases (ltb_ℤ src.balance (pos total))) [
            | inl short ↦
                rw (live, short)
                  (settle_stopped tx move db pending_db _
                    (move_money_short src dest total dto.amount pending_db src_row' live short))
            | inr enough ↦
                let (moved, moving) =
                  move_money_covered src dest total dto.amount pending_db apart src_row' dest_row'
                    (ground arith) (ground arith) in
                rw (live, enough) (settle_through tx move db moved moving)
          ]
        ]

    abbrev attempted : ℕ → App Db → Result Transaction
    attempted fee s =
        (settle t (transfer_record draw dto key fee src dest)
          (move_money t src.id dest.id (dto.amount + fee) dto.amount) s.db).0

    execute_settled :
        (fee : ℕ) (s : App Db) (done : Transaction)
        → attempted fee s ≡ ok done
        → (execute t draw user_id dto key src dest fee s).0 ≡ ok done
    unfolding execute
    execute_settled fee s done h = ground arith

    execute_refused :
        (fee : ℕ) (s : App Db) (m : String)
        → attempted fee s ≡ err (bad_request m)
        → (execute t draw user_id dto key src dest fee s).0 ≡ err (bad_request m)
    unfolding execute to_error
    execute_refused fee s m h = ground (
      arith,
      (A.transaction_saved (as_failed (bad_request m) (transfer_record draw dto key fee src dest))
          s.db).1,
    )

    execute-verdict :
        (fee : ℕ) (s : App Db)
        → account t.accounts src.id s.db ≡ some src
        → account t.accounts dest.id s.db ≡ some dest
        → (execute t draw user_id dto key src dest fee s).0
          ≡ verdict src
              (dto.amount + fee)
              (as_completed (transfer_record draw dto key fee src dest))
    execute-verdict fee s src_row dest_row =
        let settled = settle-verdict fee s.db src_row dest_row in
        elim (Bool-cases (src.status != active)) [
          | inl cold ↦ rw cold (execute_refused fee s _ (rw cold at settled))
          | inr live ↦ elim (Bool-cases (ltb_ℤ src.balance (pos (dto.amount + fee)))) [
            | inl short ↦ rw (live, short) (execute_refused fee s _ (rw (live, short) at settled))
            | inr enough ↦
                rw (live, enough) (execute_settled fee s _ (rw (live, enough) at settled))
          ]
        ]

    -- As long as the database refuses no write, a transfer of the owner between two accounts of one
    -- currency is decided by the source: it fails if that is not active, and otherwise if its balance
    -- is below the amount and the fee, with these two messages; in every other case it returns the
    -- completed record.
    pub transfer-verdict :
        (s : App Db) (quote : FeeCalculation)
        → account t.accounts dto.source_account_id s.db ≡ some src
        → src.user_id ≡ user_id
        → find_by_account_number t.accounts dto.destination_account_number s.db ≡ some dest
        → src.currency ≡ dest.currency
        → (calculate t.fees draw.now TransactionType.transfer (rounded_kobo dto.amount) s).0
          ≡ ok quote
        → (transfer t draw user_id dto key s).0
          ≡ verdict src
              (dto.amount + quote.fee)
              (as_completed (transfer_record draw dto key quote.fee src dest))
    unfolding transfer find_one find_by_account_number
    transfer-verdict s quote src_row owner dest_row one_currency quoted =
        let priced =
          calculate t.fees draw.now TransactionType.transfer (rounded_kobo dto.amount) s in
        let same =
          calculate-db t.fees draw.now TransactionType.transfer (rounded_kobo dto.amount) s in
        let src_is : src.id ≡ dto.source_account_id =
          row-id (λ a. a.id) t.accounts L.accounts dto.source_account_id s.db src src_row in
        let named = L.accounts.find_one-some _ s.db dest dest_row in
        let answer =
          execute-verdict quote.fee priced.1
            (rw same.0
              (subst (λ (i : ℕ). account t.accounts i s.db ≡ some src) (sym src_is) src_row))
            (rw same.0 named.1) in
        ground (arith, answer)
