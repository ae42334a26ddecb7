-- ===== src/Transactions/Settlement.antt =====
-- The frame that the three kinds of transaction share, and the movement of a transfer.
use vault_api.Prelude.{ℕ, ◌≡◌, ◌≢◌, sym, ap, ◌∙◌, Option, some, arith, ◌==◌, nat_eq, if◌then◌else◌}
use vault_api.Prelude.Int.{pos, ◌≤ℤ◌}
use vault_api.Http.Action.{Result, ok, Action, ◌>>◌, attempt, pure}
use vault_api.Http.Inversion.{>>-ok, attempt->>-ok}
use vault_api.Orm.{row}
use vault_api.Orm.Laws.{row-save_self}
use vault_api.Accounts.Entity.{Account, active}
use vault_api.Accounts.{debit_account, credit_account}
use vault_api.Accounts.Debit.{account, debited, credited, debit_account-ok, credit_account-ok}
use vault_api.Transactions.Entity.{Transaction}
use vault_api.Transactions.{Tables, settle, as_completed, move_money}
use vault_api.Transactions.Lawful.{AreLawful}

module _ {Db : Type 0} (t : Tables Db) (L : AreLawful t) where
  abbrev pub transaction : ℕ → Db → Option Transaction
  transaction = row (λ x. x.id) t.transactions

  abbrev saves : Transaction → Db → Result Db
  saves = t.transactions.save

  -- The steps of a settlement from the last to the first.
  abbrev publish : Transaction → Action Db Transaction
  publish tx = attempt t.commit >> pure (as_completed tx)

  abbrev finish : Transaction → Action Db Transaction
  finish tx = attempt (saves (as_completed tx)) >> publish tx

  -- A settlement that goes through has run every step, and its record is there, completed.
  pub settle-ok :
      (tx done : Transaction) (move : Action Db (Unit {0})) (db db' : Db)
      → settle t tx move db ≡ (ok done, db')
      → (saved moved : Db) × (done ≡ as_completed tx)
        × (move saved ≡ (ok tt, moved))
        × ((j : ℕ) → account t.accounts j saved ≡ account t.accounts j db)
        × ((j : ℕ) → account t.accounts j db' ≡ account t.accounts j moved)
        × (transaction tx.id db' ≡ some done)
  unfolding settle
  settle-ok tx done move db db' h =
      let (saved, first, rest) = attempt->>-ok (saves tx) (move >> finish tx) db h in
      let (moved, moving, rest') = >>-ok move (finish tx) saved rest in
      let (written, second, rest'') =
        attempt->>-ok (saves (as_completed tx)) (publish tx) moved rest' in
      let (published, commit, last) =
        attempt->>-ok t.commit (pure (as_completed tx)) written rest'' in
      let same : db' ≡ written = ground (arith, L.commit-ok written published commit) in
      let given : as_completed tx ≡ done = ground arith in
      (
        saved,
        moved,
        sym given,
        moving,
        λ j. L.transactions_apart.find_one-save tx db saved (λ a. a.id == j) first,
        λ j. rw same (
            L.transactions_apart.find_one-save (as_completed tx) moved written (λ a. a.id == j)
              second),
        rw same (
            row-save_self (λ x. x.id) t.transactions L.transactions (as_completed tx) moved written
              second
            ∙ ap some given),
      )

  -- A transfer's movement between two accounts takes the total off the first and puts the amount on
  -- the second, and leaves all others as they were.
  pub move_money-ok :
      (i k total amount : ℕ) (db db' : Db)
      → i ≢ k
      → move_money t i k total amount db ≡ (ok tt, db')
      → (a b : Account) × (account t.accounts i db ≡ some a)
        × (account t.accounts k db ≡ some b)
        × (a.status ≡ active)
        × (pos total ≤ℤ a.balance)
        × ((j : ℕ)
            → account t.accounts j db' ≡ (
                if j == i
                then some (debited total a)
                else if j == k
                then some (credited amount b)
                else account t.accounts j db))
  unfolding move_money
  move_money-ok i k total amount db db' apart h =
      let (middle, out, into) =
        >>-ok (debit_account t.accounts i total) (credit_account t.accounts k amount) db h in
      let (a, known, live, cover, after) =
        debit_account-ok t.accounts L.accounts i total db middle out in
      let (b, other, after') = credit_account-ok t.accounts L.accounts k amount middle db' into in
      (
        a,
        b,
        known,
        ground (arith, after k, apart),
        live,
        cover,
        λ j. ground (arith, after j, after' j),
      )
