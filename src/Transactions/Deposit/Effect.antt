-- ===== src/Transactions/Deposit/Effect.antt =====
-- What a deposit has done when it returns, and when it throws.
use mathlib.Core.Path.{subst}
use vault_api.Prelude.{
  ℕ, ◌≡◌, sym, ◌∙◌, inl, inr, Option-cases, some, arith, ◌==◌, nat_eq, if◌then◌else◌,
}
use vault_api.Http.Exception.{Exception}
use vault_api.Http.Action.{Result, ok, err, Result-cases}
use vault_api.App.{App}
use vault_api.Orm.Laws.{row-id}
use vault_api.Accounts.Entity.{Account}
use vault_api.Accounts.{find_one, credit_account}
use vault_api.Accounts.Debit.{account, credited, credit_account-ok}
use vault_api.Transactions.Entity.{Transaction, DepositDto}
use vault_api.Transactions.{Draw, Tables, deposit_record, as_completed, as_failed, settle}
use vault_api.Transactions.Lawful.{AreLawful}
use vault_api.Transactions.Settlement.{transaction, settle-ok}
use vault_api.Transactions.Deposit.{execute, deposit}

module _ {Db : Type 0} (t : Tables Db) (L : AreLawful t) (draw : Draw) (dto : DepositDto) where
  -- The amount has been put on the account, and no other account has changed.
  pub record HasArrived (dest : Account) (before after : Db) : Type 0 where
    pub destination_was : account t.accounts dest.id before ≡ some dest
    pub accounts_after :
        (j : ℕ)
        → account t.accounts j after
          ≡ (if j == dest.id then some (credited dto.amount dest) else account t.accounts j before)

  abbrev draft : Account → Transaction
  draft dest = deposit_record draw dto dest

  settle-HasArrived :
      (dest : Account) (db db' : Db) (done : Transaction)
      → account t.accounts dest.id db ≡ some dest
      → settle t (draft dest) (credit_account t.accounts dest.id dto.amount) db ≡ (ok done, db')
      → HasArrived dest db db'
        × (done ≡ as_completed (draft dest))
        × (transaction t L draw.id db' ≡ some done)
  settle-HasArrived dest db db' done dest_row h =
      let (saved, moved, is_done, moving, start, end_, stored) =
        settle-ok t L (draft dest) done (credit_account t.accounts dest.id dto.amount) db db' h in
      let (a, a_row, after) =
        credit_account-ok t.accounts L.accounts dest.id dto.amount saved moved moving in
      let a_is : a ≡ dest = ground (arith, start dest.id) in
      (
        record {
          destination_was = dest_row;
          accounts_after = λ j. ground (arith, after j, start j, end_ j, a_is);
        },
        is_done,
        stored,
      )

  abbrev attempted : Account → App Db → Result Transaction × Db
  attempted dest s = settle t (draft dest) (credit_account t.accounts dest.id dto.amount) s.db

  execute-ok :
      (dest : Account) (s s' : App Db) (tx : Transaction)
      → account t.accounts dest.id s.db ≡ some dest
      → execute t draw dto dest s ≡ (ok tx, s')
      → HasArrived dest s.db s'.db
        × (tx ≡ as_completed (draft dest))
        × (transaction t L tx.id s'.db ≡ some tx)
  unfolding execute
  execute-ok dest s s' tx dest_row h = elim (Result-cases (attempted dest s).0) [
    | inr (e, failed) ↦ absurd (ground arith)
    | inl (done, settled) ↦
        let (left, is_done, stored) =
          settle-HasArrived dest s.db (attempted dest s).1 done dest_row (ground arith) in
        let same : s'.db ≡ (attempted dest s).1 = ground arith in
        let given : tx ≡ done = ground arith in
        (subst (HasArrived dest s.db) (sym same) left, given ∙ is_done, ground arith)
  ]

  execute-err :
      (dest : Account) (s s' : App Db) (e : Exception)
      → execute t draw dto dest s ≡ (err e, s')
      → (j : ℕ) → account t.accounts j s'.db ≡ account t.accounts j s.db
  unfolding execute
  execute-err dest s s' e h j = elim (Result-cases (attempted dest s).0) [
    | inl (done, settled) ↦ absurd (ground arith)
    | inr (cause, failed) ↦
        let lost : Transaction = as_failed cause (draft dest) in
        elim (Result-cases (t.transactions.save lost s.db)) [
          | inl (db', written) ↦
              ground
                (arith, L.transactions_apart.find_one-save lost s.db db' (λ a. a.id == j) written)
          | inr (refusal, refused) ↦ ground arith
        ]
  ]

  -- What has become of a deposit that returned `tx`.
  pub record DepositDone (s s' : App Db) (tx : Transaction) : Type 0 where
    pub dest : Account
    pub is_asked : dest.id ≡ dto.account_id
    pub moved : HasArrived dest s.db s'.db
    pub is_done : tx ≡ as_completed (draft dest)
    pub free : tx.fee ≡ 0
    pub stored : transaction t L tx.id s'.db ≡ some tx

  -- A deposit that returns has put exactly the amount on the account, whatever its status and its
  -- owner, and left every other account alone, and its completed record is stored.
  pub deposit-ok :
      (s s' : App Db) (tx : Transaction) → deposit t draw dto s ≡ (ok tx, s') → DepositDone s s' tx
  unfolding deposit find_one
  deposit-ok s s' tx h = elim (Option-cases (account t.accounts dto.account_id s.db)) [
    | inl missing ↦ absurd (ground arith)
    | inr (dest, dest_row) ↦
        let dest_is : dest.id ≡ dto.account_id =
          row-id (λ a. a.id) t.accounts L.accounts dto.account_id s.db dest dest_row in
        let (left, is_done, stored) =
          execute-ok dest s s' tx
            (subst (λ (i : ℕ). account t.accounts i s.db ≡ some dest) (sym dest_is) dest_row)
            (ground arith) in
        record {
          dest = dest;
          is_asked = dest_is;
          moved = left;
          is_done = is_done;
          free = ground (arith, is_done);
          stored = stored;
        }
  ]

  -- A deposit that throws leaves every account as it was.
  pub deposit-err :
      (s s' : App Db) (e : Exception)
      → deposit t draw dto s ≡ (err e, s')
      → (j : ℕ) → account t.accounts j s'.db ≡ account t.accounts j s.db
  unfolding deposit find_one
  deposit-err s s' e h j = elim (Option-cases (account t.accounts dto.account_id s.db)) [
    | inl missing ↦ ground arith
    | inr (dest, dest_row) ↦ elim (Result-cases (execute t draw dto dest s).0) [
      | inl (tx, done) ↦ ground arith
      | inr (x, failed) ↦
          ground (arith, execute-err dest s (execute t draw dto dest s).1 x (ground arith) j)
    ]
  ]
