-- ===== src/Accounts/Sound.antt =====
-- The invariant of the account table: no balance is negative, and the ledger agrees with it.
use vault_api.Prelude.{ℕ, String, ◌≡◌, ap, inl, inr, some, arith, nat_eq, Option-cases}
use vault_api.Prelude.Int.{pos, ◌-ℤ◌, ◌+ℤ◌, ◌≤ℤ◌, int_laws}
use vault_api.Http.Action.{ok}
use vault_api.Orm.{Repository, IsLawful}
use vault_api.Accounts.Entity.{Account, AccountStatus, active, frozen}
use vault_api.Accounts.{CreateAccountDto, create, freeze, unfreeze, debit_account, credit_account}
use vault_api.Accounts.Debit.{account, debited, credited, debit_account-ok, credit_account-ok}

pub record IsBalanced (a : Account) : Type 0 where
  pub covered : pos 0 ≤ℤ a.balance
  pub in_step : a.ledger_balance ≡ a.balance

-- A debit that the balance covers, and any credit, keep a row balanced.
pub debited-IsBalanced :
    (x : ℕ) (a : Account) → pos x ≤ℤ a.balance → IsBalanced a → IsBalanced (debited x a)
debited-IsBalanced x a cover b = record {
  covered = omega (int_laws, b.covered);
  in_step = ap (λ z. z -ℤ pos x) b.in_step;
}

pub credited-IsBalanced : (x : ℕ) (a : Account) → IsBalanced a → IsBalanced (credited x a)
credited-IsBalanced x a b = record {
  covered = omega (int_laws, b.covered);
  in_step = ap (λ z. z +ℤ pos x) b.in_step;
}

with_status-IsBalanced :
    (s : AccountStatus) (a : Account) → IsBalanced a → IsBalanced (record a { status = s })
with_status-IsBalanced s a b = record { covered = b.covered; in_step = b.in_step }

module _ {Db : Type 0} (accounts : Repository Account Db) (L : IsLawful (λ a. a.id) accounts) where
  abbrev pub IsSound : Db → Type 0
  IsSound db = (j : ℕ) (a : Account) → account accounts j db ≡ some a → IsBalanced a

  -- Writing a sound row keeps the table sound.
  pub save-IsSound :
      (a : Account) (db db' : Db)
      → IsBalanced a
      → accounts.save a db ≡ ok db'
      → IsSound db
      → IsSound db'
  save-IsSound a db db' b saved sound j c found =
      ground (arith, L.row-save a db db' j saved, sound j c, b)

  pub debit_account-IsSound :
      (i x : ℕ) (db db' : Db)
      → debit_account accounts i x db ≡ (ok tt, db')
      → IsSound db
      → IsSound db'
  debit_account-IsSound i x db db' h sound j c found =
      let (a, old, _, cover, after) = debit_account-ok accounts L i x db db' h in
      ground (arith, after j, sound j c, debited-IsBalanced x a cover (sound i a old))

  pub credit_account-IsSound :
      (i x : ℕ) (db db' : Db)
      → credit_account accounts i x db ≡ (ok tt, db')
      → IsSound db
      → IsSound db'
  credit_account-IsSound i x db db' h sound j c found =
      let (a, old, after) = credit_account-ok accounts L i x db db' h in
      ground (arith, after j, sound j c, credited-IsBalanced x a (sound i a old))

  -- One call of a method that writes to the table and returns.
  pub data Call (db db' : Db) : Type 0 where
    opened :
        (id : ℕ) (number : String) (u : ℕ) (dto : CreateAccountDto) (a : Account)
        → create accounts id number u dto db ≡ (ok a, db')
        → Call db db'
    froze : (i u : ℕ) (a : Account) → freeze accounts i u db ≡ (ok a, db') → Call db db'
    unfroze : (i : ℕ) (a : Account) → unfreeze accounts i db ≡ (ok a, db') → Call db db'
    debit : (i x : ℕ) → debit_account accounts i x db ≡ (ok tt, db') → Call db db'
    credit : (i x : ℕ) → credit_account accounts i x db ≡ (ok tt, db') → Call db db'

  pub data Calls (db : Db) : Db → Type 0 where
    none_yet : Calls db db
    then_call : {db' db'' : Db} → Calls db db' → Call db' db'' → Calls db db''

  pub create-IsSound :
      (id : ℕ) (number : String) (u : ℕ) (dto : CreateAccountDto) (db db' : Db) (a : Account)
      → create accounts id number u dto db ≡ (ok a, db')
      → IsSound db
      → IsSound db'
  unfolding create
  create-IsSound id number u dto db db' a h sound =
      save-IsSound a db db' (record { covered = ground arith; in_step = ground arith })
        (ground arith) sound

  pub freeze-IsSound :
      (i u : ℕ) (db db' : Db) (a : Account)
      → freeze accounts i u db ≡ (ok a, db')
      → IsSound db
      → IsSound db'
  unfolding freeze
  freeze-IsSound i u db db' a h sound = elim (Option-cases (account accounts i db)) [
    | inl missing ↦ absurd (ground arith)
    | inr (b, found) ↦
        save-IsSound (record b { status = frozen }) db db'
          (with_status-IsBalanced frozen b (sound i b found)) (ground arith) sound
  ]

  pub unfreeze-IsSound :
      (i : ℕ) (db db' : Db) (a : Account)
      → unfreeze accounts i db ≡ (ok a, db')
      → IsSound db
      → IsSound db'
  unfolding unfreeze
  unfreeze-IsSound i db db' a h sound = elim (Option-cases (account accounts i db)) [
    | inl missing ↦ absurd (ground arith)
    | inr (b, found) ↦
        save-IsSound (record b { status = active }) db db'
          (with_status-IsBalanced active b (sound i b found)) (ground arith) sound
  ]

  Call-IsSound : (db db' : Db) → Call db db' → IsSound db → IsSound db'
  Call-IsSound db db' (opened id number u dto a h) = create-IsSound id number u dto db db' a h
  Call-IsSound db db' (froze i u a h) = freeze-IsSound i u db db' a h
  Call-IsSound db db' (unfroze i a h) = unfreeze-IsSound i db db' a h
  Call-IsSound db db' (debit i x h) = debit_account-IsSound i x db db' h
  Call-IsSound db db' (credit i x h) = credit_account-IsSound i x db db' h

  -- Whatever calls of the account service are made, in any order: from a table in which no balance is
  -- negative and every ledger balance equals its balance, they lead to such a table only.
  pub Calls-IsSound : {db db' : Db} → Calls db db' → IsSound db → IsSound db'
  Calls-IsSound none_yet sound = sound
  Calls-IsSound {db' = db''} (then_call {db' = middle} before call) sound =
      Call-IsSound middle db'' call (Calls-IsSound before sound)
