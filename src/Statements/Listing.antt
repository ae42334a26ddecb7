-- ===== src/Statements/Listing.antt =====
-- Which transactions stand on a statement, and whose statement it is.
use vault_api.Prelude.{
  ℕ, ◌≤◌, ◌≡◌, ◌↔◌, arith, some, List, map, Among, nat_eq, option_eq, inl, inr, Option-cases, ◌⊎◌,
}
use vault_api.Http.Action.{ok}
use vault_api.App.{App}
use vault_api.Accounts.Debit.{account}
use vault_api.Transactions.{Tables}
use vault_api.Transactions.Entity.{Transaction, completed, status_eq}
use vault_api.Transactions.Lawful.{AreLawful}
use vault_api.Transactions.Settlement.{transaction}
use vault_api.Statements.Rows.{Texts, row_of}
use vault_api.Statements.Csv.{to_csv}
use vault_api.Statements.{is_listed, Statement, transactions_of, generate_csv}

module _ {Db : Type 0} (t : Tables Db) (L : AreLawful t) (texts : Texts)
    (sorted : List Transaction → List Transaction)
    (keeps : (x : Transaction) (l : List Transaction) → Among x (sorted l) ↔ Among x l) where
  -- The account is an end of the transaction.
  abbrev pub Touches : ℕ → Transaction → Type 0
  Touches i x = (x.source_account_id ≡ some i) ⊎ (x.destination_account_id ≡ some i)

  -- A statement lists exactly the stored transactions that were completed, have the account as an end,
  -- and were made within the period, its ends included.
  pub Among-transactions_of :
      (i from to : ℕ) (db : Db) (x : Transaction)
      → Among x (transactions_of t texts sorted i from to db) ↔ (
          (transaction t L x.id db ≡ some x)
          × Touches i x
          × (x.status ≡ completed)
          × (from ≤ x.created_at)
          × (x.created_at ≤ to))
  unfolding transactions_of
  Among-transactions_of i from to db x =
      let listed = is_listed t texts sorted i from to in
      ground (arith, keeps x (t.transactions.find listed db), L.transactions.among-find listed db x)

  -- A statement is given to the owner of the account only, with the rows of those transactions, and
  -- making it changes nothing.
  pub generate_csv-ok :
      (now i user_id from to : ℕ) (db db' : Db) (st : Statement)
      → generate_csv t texts sorted now i user_id from to db ≡ (ok st, db')
      → (account t.accounts i db ≡ some st.account)
        × (st.account.user_id ≡ user_id)
        × (st.csv
            ≡ to_csv texts now
                (map (row_of texts i) (transactions_of t texts sorted i from to db))
                st.account)
        × (db' ≡ db)
  unfolding generate_csv
  generate_csv-ok now i user_id from to db db' st h =
      elim (Option-cases (account t.accounts i db)) [
        | inl missing ↦ absurd (ground arith)
        | inr (a, found) ↦ (ground arith, ground arith, ground arith, ground arith)
      ]
