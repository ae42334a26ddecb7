-- ===== src/Accounts/Ownership.antt =====
-- Who may reach an account, and the freezing of one.
use vault_api.Prelude.{
  ℕ, String, ◌==◌, if◌then◌else◌, ◌≡◌, ◌≢◌, inl, inr, some, arith, nat_eq, Option-cases,
}
use vault_api.Http.Exception.{forbidden, bad_request}
use vault_api.Http.Action.{ok, err}
use vault_api.Orm.{Repository, IsLawful}
use vault_api.Orm.Laws.{row-id}
use vault_api.Accounts.Entity.{Account, active, frozen}
use vault_api.Accounts.{CreateAccountDto, create, find_one, freeze, unfreeze, debit_account}
use vault_api.Accounts.Debit.{account}

module _ {Db : Type 0} (accounts : Repository Account Db) (L : IsLawful (λ a. a.id) accounts) where
  -- An account that is handed out for a user is the one asked for, and is that user's.
  pub find_one-ok :
      (i u : ℕ) (db db' : Db) (a : Account)
      → find_one accounts i (some u) db ≡ (ok a, db')
      → (account accounts i db ≡ some a) × (a.user_id ≡ u) × (a.id ≡ i) × (db' ≡ db)
  unfolding find_one
  find_one-ok i u db db' a h = elim (Option-cases (account accounts i db)) [
    | inl missing ↦ ground arith
    | inr (b, found) ↦ ground (arith, row-id (λ a. a.id) accounts L i db b found)
  ]

  -- The account of somebody else cannot be read, and cannot be frozen.
  pub freeze_stranger :
      (i u : ℕ) (db : Db) (a : Account)
      → account accounts i db ≡ some a
      → a.user_id ≢ u
      → (find_one accounts i (some u) db ≡ (err (forbidden "Access denied"), db))
        × (freeze accounts i u db ≡ (err (forbidden "Access denied"), db))
  unfolding find_one freeze
  freeze_stranger i u db a found other = (ground arith, ground arith)

  -- Once its owner has frozen it, an account refuses every debit, and a second freeze.
  pub debit_account-freeze :
      (i u x : ℕ) (db db' : Db) (a : Account)
      → freeze accounts i u db ≡ (ok a, db')
      → (debit_account accounts i x db' ≡ (err (bad_request "Account is not active"), db'))
        × (freeze accounts i u db' ≡ (err (bad_request "Account is already frozen"), db'))
  unfolding find_one freeze debit_account
  debit_account-freeze i u x db db' a h = elim (Option-cases (account accounts i db)) [
    | inl missing ↦ ground arith
    | inr (b, found) ↦
        let key : b.id ≡ i = row-id (λ a. a.id) accounts L i db b found in
        let now : account accounts i db' ≡ some (record b { status = frozen }) =
          ground (arith, L.row-save (record b { status = frozen }) db db' i) in
        (ground arith, ground arith)
  ]

  -- Unfreezing undoes a freeze of an active account: every account is again as it was.
  pub unfreeze-freeze :
      (i u : ℕ) (db db' db'' : Db) (a b c : Account)
      → account accounts i db ≡ some c
      → c.status ≡ active
      → freeze accounts i u db ≡ (ok a, db')
      → unfreeze accounts i db' ≡ (ok b, db'')
      → (b ≡ c) × ((j : ℕ) → account accounts j db'' ≡ account accounts j db)
  unfolding find_one freeze unfreeze
  unfreeze-freeze i u db db' db'' a b c found live frz unf =
      let key : c.id ≡ i = row-id (λ a. a.id) accounts L i db c found in
      let cold : Account = record c { status = frozen } in
      let now : account accounts i db' ≡ some cold = ground (arith, L.row-save cold db db' i) in
      let warm : Account = record cold { status = active } in
      (ground arith, λ j. ground (arith, L.row-save cold db db' j, L.row-save warm db' db'' j))

  -- `unfreeze` looks at no status: whatever the account was, a closed one too, it is active after.
  pub unfreeze-active :
      (i : ℕ) (db db' : Db) (a : Account)
      → unfreeze accounts i db ≡ (ok a, db')
      → (account accounts i db' ≡ some a) × (a.status ≡ active)
  unfolding find_one unfreeze
  unfreeze-active i db db' a h = elim (Option-cases (account accounts i db)) [
    | inl missing ↦ ground arith
    | inr (b, found) ↦
        let key : b.id ≡ i = row-id (λ a. a.id) accounts L i db b found in
        ground (arith, L.row-save (record b { status = active }) db db' i)
  ]

  -- A new account leaves every other key as it was.
  pub create-ok :
      (id u : ℕ) (number : String) (dto : CreateAccountDto) (db db' : Db) (a : Account)
      → create accounts id number u dto db ≡ (ok a, db')
      → (j : ℕ) → account accounts j db' ≡ (if j == id then some a else account accounts j db)
  unfolding create
  create-ok id u number dto db db' a h j = ground (arith, L.row-save a db db' j)

  -- A freeze that returns was its owner's, and changes the status of the account and nothing else.
  pub freeze-ok :
      (i u : ℕ) (db db' : Db) (a : Account)
      → freeze accounts i u db ≡ (ok a, db')
      → (b : Account) × (account accounts i db ≡ some b)
        × (b.user_id ≡ u)
        × ((j : ℕ)
            → account accounts j db'
              ≡ (if j == i then some (record b { status = frozen }) else account accounts j db))
  unfolding freeze
  freeze-ok i u db db' a h = elim (Option-cases (account accounts i db)) [
    | inl missing ↦ absurd (ground arith)
    | inr (b, found) ↦ (
      b,
      found,
      ground arith,
      λ j. ground (
        arith,
        L.row-save (record b { status = frozen }) db db' j,
        row-id (λ a. a.id) accounts L i db b found,
      ),
    )
  ]

  pub unfreeze-ok :
      (i : ℕ) (db db' : Db) (a : Account)
      → unfreeze accounts i db ≡ (ok a, db')
      → (b : Account) × (account accounts i db ≡ some b)
        × ((j : ℕ)
            → account accounts j db'
              ≡ (if j == i then some (record b { status = active }) else account accounts j db))
  unfolding unfreeze
  unfreeze-ok i db db' a h = elim (Option-cases (account accounts i db)) [
    | inl missing ↦ absurd (ground arith)
    | inr (b, found) ↦ (
      b,
      found,
      λ j. ground (
        arith,
        L.row-save (record b { status = active }) db db' j,
        row-id (λ a. a.id) accounts L i db b found,
      ),
    )
  ]
