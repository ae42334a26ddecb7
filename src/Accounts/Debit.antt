-- ===== src/Accounts/Debit.antt =====
-- What a debit and a credit leave in the account table, on every branch.
use vault_api.Prelude.{
  ℕ, ◌≡◌, inl, inr, Option, some, arith, ◌==◌, nat_eq, if◌then◌else◌, Option-cases,
}
use vault_api.Prelude.Int.{pos, ◌-ℤ◌, ◌+ℤ◌, ◌≤ℤ◌}
use vault_api.Http.Exception.{Exception}
use vault_api.Http.Action.{ok, err}
use vault_api.Orm.{Repository, IsLawful, row}
use vault_api.Orm.Laws.{row-id}
use vault_api.Accounts.Entity.{Account, active}
use vault_api.Accounts.{debit_account, credit_account}

abbrev pub debited : ℕ → Account → Account
debited x a = record a { balance = a.balance -ℤ pos x; ledger_balance = a.ledger_balance -ℤ pos x }

abbrev pub credited : ℕ → Account → Account
credited x a = record a { balance = a.balance +ℤ pos x; ledger_balance = a.ledger_balance +ℤ pos x }

-- The account with this key.
abbrev pub account : {Db : Type 0} → Repository Account Db → ℕ → Db → Option Account
account accounts = row (λ a. a.id) accounts

module _ {Db : Type 0} (accounts : Repository Account Db) (L : IsLawful (λ a. a.id) accounts) where
  -- A debit that returns found an active account whose balance covers the amount, has taken the amount
  -- off both its balances, and has left every other account as it was.
  pub debit_account-ok :
      (i x : ℕ) (db db' : Db)
      → debit_account accounts i x db ≡ (ok tt, db')
      → (a : Account) × (account accounts i db ≡ some a)
        × (a.status ≡ active)
        × (pos x ≤ℤ a.balance)
        × ((j : ℕ)
            → account accounts j db'
              ≡ (if j == i then some (debited x a) else account accounts j db))
  unfolding debit_account
  debit_account-ok i x db db' h = elim (Option-cases (account accounts i db)) [
    | inl missing ↦ ground arith
    | inr (a, found) ↦ (
      a,
      found,
      ground arith,
      ground arith,
      λ j.
          ground
            (arith, L.row-save (debited x a) db db' j, row-id (λ a. a.id) accounts L i db a found),
    )
  ]

  -- A debit that throws has changed nothing.
  pub debit_account-err :
      (i x : ℕ) (db db' : Db) (e : Exception)
      → debit_account accounts i x db ≡ (err e, db')
      → db' ≡ db
  unfolding debit_account
  debit_account-err i x db db' e h = ground arith

  -- A debit that the account covers goes through, unless the database refuses the write.
  pub debit_account_covered :
      (i x : ℕ) (db db' : Db) (a : Account)
      → account accounts i db ≡ some a
      → a.status ≡ active
      → pos x ≤ℤ a.balance
      → accounts.save (debited x a) db ≡ ok db'
      → debit_account accounts i x db ≡ (ok tt, db')
  unfolding debit_account
  debit_account_covered i x db db' a found live cover saved = ground arith

  -- A credit that returns has added the amount to both balances of an account, whatever its status,
  -- and has left every other account as it was.
  pub credit_account-ok :
      (i x : ℕ) (db db' : Db)
      → credit_account accounts i x db ≡ (ok tt, db')
      → (a : Account) × (account accounts i db ≡ some a)
        × ((j : ℕ)
            → account accounts j db'
              ≡ (if j == i then some (credited x a) else account accounts j db))
  unfolding credit_account
  credit_account-ok i x db db' h = elim (Option-cases (account accounts i db)) [
    | inl missing ↦ ground arith
    | inr (a, found) ↦ (
      a,
      found,
      λ j.
          ground
            (arith, L.row-save (credited x a) db db' j, row-id (λ a. a.id) accounts L i db a found),
    )
  ]

  pub credit_account_known :
      (i x : ℕ) (db db' : Db) (a : Account)
      → account accounts i db ≡ some a
      → accounts.save (credited x a) db ≡ ok db'
      → credit_account accounts i x db ≡ (ok tt, db')
  unfolding credit_account
  credit_account_known i x db db' a found saved = ground arith
