-- ===== src/Transactions/Transfer/Moved.antt =====
-- What `execute` has done to the database when it returns, and when it throws.
use vault_api.Prelude.{
  ℕ, ◌+◌, string_eq, ◌≡◌, ◌≢◌, sym, ◌∙◌, inl, inr, ◌⊎◌, String, Option, some, ◌∷◌, arith, ◌==◌,
  nat_eq, if◌then◌else◌,
}
use mathlib.Core.Path.{subst}
use vault_api.Prelude.Int.{pos, ◌≤ℤ◌}
use vault_api.Http.Exception.{Exception, to_error, get_error_message}
use vault_api.Http.Action.{ok, err, Action, Result-cases}
use vault_api.App.{App}
use vault_api.Events.{transfer_completed, transfer_failed}
use vault_api.Orm.Laws.{row-save_self}
use vault_api.Accounts.Entity.{Account, active}
use vault_api.Accounts.Debit.{account, debited, credited}
use vault_api.Transactions.Entity.{Transaction, InitiateTransferDto}
use vault_api.Transactions.{
  Draw, Tables, transfer_record, as_completed, as_failed, settle, move_money,
}
use vault_api.Transactions.Lawful.{AreLawful}
use vault_api.Transactions.Settlement.{transaction, settle-ok, move_money-ok}
use vault_api.Transactions.Transfer.{execute}

module _ {Db : Type 0} (t : Tables Db) (L : AreLawful t) (draw : Draw) (user_id : ℕ)
    (dto : InitiateTransferDto) (key : Option String) where
  -- The money of a transfer from `src` to `dest` has moved between two states of the database.
  pub record HasMoved (src dest : Account) (fee : ℕ) (before after : Db) : Type 0 where
    pub source_was : account t.accounts src.id before ≡ some src
    pub destination_was : account t.accounts dest.id before ≡ some dest
    pub source_active : src.status ≡ active
    pub source_covers : pos (dto.amount + fee) ≤ℤ src.balance
    pub accounts_after :
        (j : ℕ)
        → account t.accounts j after ≡ (
            if j == src.id
            then some (debited (dto.amount + fee) src)
            else if j == dest.id
            then some (credited dto.amount dest)
            else account t.accounts j before)

  abbrev pub draft : Account → Account → ℕ → Transaction
  draft src dest fee = transfer_record draw dto key fee src dest

  abbrev movement : Account → Account → ℕ → Action Db (Unit {0})
  movement src dest fee = move_money t src.id dest.id (dto.amount + fee) dto.amount

  -- A settled transfer has moved the money, and its record is stored as completed.
  settle-HasMoved :
      (src dest : Account) (fee : ℕ) (db db' : Db) (done : Transaction)
      → src.id ≢ dest.id
      → account t.accounts src.id db ≡ some src
      → account t.accounts dest.id db ≡ some dest
      → settle t (draft src dest fee) (movement src dest fee) db ≡ (ok done, db')
      → HasMoved src dest fee db db'
        × (done ≡ as_completed (draft src dest fee))
        × (transaction t L draw.id db' ≡ some done)
  settle-HasMoved src dest fee db db' done apart src_row dest_row h =
      let (saved, moved, is_done, moving, start, end_, stored) =
        settle-ok t L (draft src dest fee) done (movement src dest fee) db db' h in
      let (a, b, a_row, b_row, live, cover, after) =
        move_money-ok t L src.id dest.id (dto.amount + fee) dto.amount saved moved apart moving in
      let a_is : a ≡ src = ground (arith, start src.id) in
      let b_is : b ≡ dest = ground (arith, start dest.id) in
      (
        record {
          source_was = src_row;
          destination_was = dest_row;
          source_active = subst (λ (x : Account). x.status ≡ active) a_is live;
          source_covers = subst (λ (x : Account). pos (dto.amount + fee) ≤ℤ x.balance) a_is cover;
          accounts_after = λ j. ground (arith, after j, start j, end_ j, a_is, b_is);
        },
        is_done,
        stored,
      )

  pub execute-ok :
      (src dest : Account) (fee : ℕ) (s s' : App Db) (tx : Transaction)
      → src.id ≢ dest.id
      → account t.accounts src.id s.db ≡ some src
      → account t.accounts dest.id s.db ≡ some dest
      → execute t draw user_id dto key src dest fee s ≡ (ok tx, s')
      → HasMoved src dest fee s.db s'.db
        × (tx ≡ as_completed (transfer_record draw dto key fee src dest))
        × (transaction t L tx.id s'.db ≡ some tx)
        × (s'.events
            ≡ transfer_completed (record {
              transaction_id = draw.id;
              reference = draw.reference;
              sender_id = user_id;
              sender_account_id = src.id;
              receiver_account_id = dest.id;
              amount = dto.amount;
              fee = fee;
              currency = src.currency;
            })
              ∷ s.events)
  unfolding execute
  execute-ok src dest fee s s' tx apart src_row dest_row h =
      let attempted = settle t (draft src dest fee) (movement src dest fee) s.db in
      elim (Result-cases attempted.0) [
        | inr (e, failed) ↦ absurd (ground arith)
        | inl (done, settled) ↦
            let (moved, is_done, stored) =
              settle-HasMoved src dest fee s.db attempted.1 done apart src_row dest_row
                (ground arith) in
            let same : s'.db ≡ attempted.1 = ground arith in
            let given : tx ≡ done = ground arith in
            (
              subst (HasMoved src dest fee s.db) (sym same) moved,
              given ∙ is_done,
              ground arith,
              ground arith,
            )
      ]

  pub execute-err :
      (src dest : Account) (fee : ℕ) (s s' : App Db) (e : Exception)
      → execute t draw user_id dto key src dest fee s ≡ (err e, s')
      → (cause : Exception) × ((settle t (draft src dest fee) (movement src dest fee) s.db).0
          ≡ err cause)
        × ((j : ℕ) → account t.accounts j s'.db ≡ account t.accounts j s.db)
        × ((transaction t L draw.id s'.db ≡ some (as_failed cause (draft src dest fee)))
              × (e ≡ to_error cause)
              × (s'.events
                  ≡ transfer_failed (record {
                    reference = draw.reference;
                    user_id = user_id;
                    amount = dto.amount;
                    reason = get_error_message cause;
                  })
                    ∷ s.events)
            ⊎ (t.transactions.save (as_failed cause (draft src dest fee)) s.db ≡ err e)
              × (s'.db ≡ s.db)
              × (s'.events ≡ s.events))
  unfolding execute
  execute-err src dest fee s s' e h =
      let attempted = settle t (draft src dest fee) (movement src dest fee) s.db in
      elim (Result-cases attempted.0) [
        | inl (done, settled) ↦ absurd (ground arith)
        | inr (cause, failed) ↦
            let lost : Transaction = as_failed cause (draft src dest fee) in
            elim (Result-cases (t.transactions.save lost s.db)) [
              | inl (db', written) ↦
                  let same : s'.db ≡ db' = ground arith in
                  (
                    cause,
                    failed,
                    λ j.
                        rw same (
                          L.transactions_apart.find_one-save lost s.db db' (λ a. a.id == j)
                            written),
                    inl (
                      rw same (
                          row-save_self (λ x. x.id) t.transactions L.transactions lost s.db db'
                            written),
                      ground arith,
                      ground arith,
                    ),
                  )
              | inr (refusal, refused) ↦
                  (cause, failed, λ j. ground arith, inr (ground arith, ground arith, ground arith))
            ]
      ]
