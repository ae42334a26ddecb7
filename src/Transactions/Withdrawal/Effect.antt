-- ===== src/Transactions/Withdrawal/Effect.antt =====
-- What a withdrawal has done when it returns, and when it throws.
use mathlib.Core.Path.{subst}
use vault_api.Prelude.{
  ℕ, ◌≡◌, sym, ◌∙◌, inl, inr, Option, Option-cases, some, String, arith, ◌==◌, nat_eq,
  if◌then◌else◌,
}
use vault_api.Prelude.Int.{pos, ◌≤ℤ◌}
use vault_api.Http.Exception.{Exception}
use vault_api.Http.Action.{Result, ok, err, Result-cases}
use vault_api.App.{App}
use vault_api.Orm.Laws.{row-id}
use vault_api.Accounts.Entity.{Account, active}
use vault_api.Accounts.{find_one, debit_account}
use vault_api.Accounts.Debit.{account, debited, debit_account-ok}
use vault_api.Transactions.Entity.{Transaction, WithdrawalDto}
use vault_api.Transactions.{Draw, Tables, withdrawal_record, as_completed, as_failed, settle}
use vault_api.Transactions.Lawful.{AreLawful}
use vault_api.Transactions.Settlement.{transaction, settle-ok}
use vault_api.Transactions.Withdrawal.{execute, withdraw}

module _ {Db : Type 0} (t : Tables Db) (L : AreLawful t) (draw : Draw) (user_id : ℕ)
    (dto : WithdrawalDto) (key : Option String) where
  -- The amount has left the account, and no other account has changed.
  pub record HasLeft (src : Account) (before after : Db) : Type 0 where
    pub source_was : account t.accounts src.id before ≡ some src
    pub source_active : src.status ≡ active
    pub source_covers : pos dto.amount ≤ℤ src.balance
    pub accounts_after :
        (j : ℕ)
        → account t.accounts j after
          ≡ (if j == src.id then some (debited dto.amount src) else account t.accounts j before)

  abbrev draft : Account → Transaction
  draft src = withdrawal_record draw dto key src

  settle-HasLeft :
      (src : Account) (db db' : Db) (done : Transaction)
      → account t.accounts src.id db ≡ some src
      → settle t (draft src) (debit_account t.accounts src.id dto.amount) db ≡ (ok done, db')
      → HasLeft src db db'
        × (done ≡ as_completed (draft src))
        × (transaction t L draw.id db' ≡ some done)
  settle-HasLeft src db db' done src_row h =
      let (saved, moved, is_done, moving, start, end_, stored) =
        settle-ok t L (draft src) done (debit_account t.accounts src.id dto.amount) db db' h in
      let (a, a_row, live, cover, after) =
        debit_account-ok t.accounts L.accounts src.id dto.amount saved moved moving in
      let a_is : a ≡ src = ground (arith, start src.id) in
      (
        record {
          source_was = src_row;
          source_active = subst (λ (x : Account). x.status ≡ active) a_is live;
          source_covers = subst (λ (x : Account). pos dto.amount ≤ℤ x.balance) a_is cover;
          accounts_after = λ j. ground (arith, after j, start j, end_ j, a_is);
        },
        is_done,
        stored,
      )

  abbrev attempted : Account → App Db → Result Transaction × Db
  attempted src s = settle t (draft src) (debit_account t.accounts src.id dto.amount) s.db

  execute-ok :
      (src : Account) (s s' : App Db) (tx : Transaction)
      → account t.accounts src.id s.db ≡ some src
      → execute t draw user_id dto key src s ≡ (ok tx, s')
      → HasLeft src s.db s'.db
        × (tx ≡ as_completed (draft src))
        × (transaction t L tx.id s'.db ≡ some tx)
  unfolding execute
  execute-ok src s s' tx src_row h = elim (Result-cases (attempted src s).0) [
    | inr (e, failed) ↦ absurd (ground arith)
    | inl (done, settled) ↦
        let (left, is_done, stored) =
          settle-HasLeft src s.db (attempted src s).1 done src_row (ground arith) in
        let same : s'.db ≡ (attempted src s).1 = ground arith in
        let given : tx ≡ done = ground arith in
        (subst (HasLeft src s.db) (sym same) left, given ∙ is_done, ground arith)
  ]

  execute-err :
      (src : Account) (s s' : App Db) (e : Exception)
      → execute t draw user_id dto key src s ≡ (err e, s')
      → (j : ℕ) → account t.accounts j s'.db ≡ account t.accounts j s.db
  unfolding execute
  execute-err src s s' e h j = elim (Result-cases (attempted src s).0) [
    | inl (done, settled) ↦ absurd (ground arith)
    | inr (cause, failed) ↦
        let lost : Transaction = as_failed cause (draft src) in
        elim (Result-cases (t.transactions.save lost s.db)) [
          | inl (db', written) ↦
              ground
                (arith, L.transactions_apart.find_one-save lost s.db db' (λ a. a.id == j) written)
          | inr (refusal, refused) ↦ ground arith
        ]
  ]

  -- What has become of a withdrawal that returned `tx`.
  pub record WithdrawalDone (s s' : App Db) (tx : Transaction) : Type 0 where
    pub src : Account
    pub is_asked : src.id ≡ dto.account_id
    pub owned : src.user_id ≡ user_id
    pub moved : HasLeft src s.db s'.db
    pub is_done : tx ≡ as_completed (draft src)
    pub free : tx.fee ≡ 0
    pub stored : transaction t L tx.id s'.db ≡ some tx

  -- A withdrawal that returns was made by the owner of an active account that covered the amount; it
  -- has taken exactly the amount off, with no fee, and left every other account alone, and its
  -- completed record is stored.
  pub withdraw-ok :
      (s s' : App Db) (tx : Transaction)
      → withdraw t draw user_id dto key s ≡ (ok tx, s')
      → WithdrawalDone s s' tx
  unfolding withdraw find_one
  withdraw-ok s s' tx h = elim (Option-cases (account t.accounts dto.account_id s.db)) [
    | inl missing ↦ absurd (ground arith)
    | inr (src, src_row) ↦
        let src_is : src.id ≡ dto.account_id =
          row-id (λ a. a.id) t.accounts L.accounts dto.account_id s.db src src_row in
        let (left, is_done, stored) =
          execute-ok src s s' tx
            (subst (λ (i : ℕ). account t.accounts i s.db ≡ some src) (sym src_is) src_row)
            (ground arith) in
        record {
          src = src;
          is_asked = src_is;
          owned = ground arith;
          moved = left;
          is_done = is_done;
          free = ground (arith, is_done);
          stored = stored;
        }
  ]

  -- A withdrawal that throws leaves every account as it was.
  pub withdraw-err :
      (s s' : App Db) (e : Exception)
      → withdraw t draw user_id dto key s ≡ (err e, s')
      → (j : ℕ) → account t.accounts j s'.db ≡ account t.accounts j s.db
  unfolding withdraw find_one
  withdraw-err s s' e h j = elim (Option-cases (account t.accounts dto.account_id s.db)) [
    | inl missing ↦ ground arith
    | inr (src, src_row) ↦ elim (Result-cases (execute t draw user_id dto key src s).0) [
      | inl (tx, done) ↦ ground arith
      | inr (x, failed) ↦
          ground
            (arith, execute-err src s (execute t draw user_id dto key src s).1 x (ground arith) j)
    ]
  ]
