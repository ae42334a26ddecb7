-- ===== src/Api/Frame/Money.antt =====
-- The account service and the transactions: what they leave alone of a table that is neither theirs.
use vault_api.Prelude.{ℕ, ◌+◌, String, Option, arith, ◌==◌, nat_eq, ◌≡◌, inl, inr, Option-cases}
use vault_api.Http.Action.{ok, Action, ◌>>◌, attempt, pure, Result-cases}
use vault_api.Http.Keeping.{Keeps, OnDb, Keeps->>, Keeps-attempt}
use vault_api.Orm.{Repository, IsApart}
use vault_api.Accounts.Entity.{Account}
use vault_api.Accounts.{
  create, find_one, find_by_account_number, freeze, unfreeze, debit_account, credit_account,
}
use vault_api.Accounts.Controller as AccountsController
use vault_api.Auth.Guards.{Principal}
use vault_api.Transactions.Entity.{Transaction, InitiateTransferDto, DepositDto, WithdrawalDto}
use vault_api.Transactions.{
  Tables, Draw, settle, as_completed, record_failure, move_money, transfer_record, deposit_record,
  withdrawal_record,
}
use vault_api.Fees.{calculate}
use vault_api.Fees.Cache.{calculate-db, calculate_total}
use vault_api.Transactions.{rounded_kobo}
use vault_api.Transactions.Entity.{TransactionType}
use vault_api.Api.Frame.{SameRows}

module _ {Db : Type 0} {F : Type 0} (key : F → ℕ) (others : Repository F Db) where
  module _ (R : Repository Account Db) (A : IsApart R others) where
    pub accounts-SameRows :
        (id : ℕ) (number : String) (user : Option Principal) (r : AccountsController.Route)
        (db : Db)
        → SameRows key others db (AccountsController.handle R id number user r db).1
    unfolding AccountsController.handle create find_one freeze unfreeze
    accounts-SameRows id number user (AccountsController.create dto) db j =
        grind (arith, A.find_one-save)
    accounts-SameRows id number user AccountsController.find_my_accounts db j = grind (arith)
    accounts-SameRows id number user (AccountsController.find_one i) db j = grind (arith)
    accounts-SameRows id number user (AccountsController.freeze i) db j =
        grind (arith, A.find_one-save)
    accounts-SameRows id number user (AccountsController.unfreeze i) db j =
        grind (arith, A.find_one-save)

  module _ (t : Tables Db) (A : IsApart t.accounts others) (T : IsApart t.transactions others)
      (commit-ok : (db db' : Db) → t.commit db ≡ ok db' → db' ≡ db) (start : Db) where
    abbrev Same : Db → Type 0
    Same = SameRows key others start

    save_transaction-Same : (tx : Transaction) → Keeps Same (attempt (t.transactions.save tx))
    save_transaction-Same tx db same j = grind (arith, T.find_one-save, same j)

    commit-Same : Keeps Same (attempt t.commit)
    commit-Same = Keeps-attempt Same t.commit λ db db' h same j. rw (commit-ok db db' h) (same j)

    debit_account-Same : (i x : ℕ) → Keeps Same (debit_account t.accounts i x)
    unfolding debit_account
    debit_account-Same i x db same j = grind (arith, A.find_one-save, same j)

    credit_account-Same : (i x : ℕ) → Keeps Same (credit_account t.accounts i x)
    unfolding credit_account
    credit_account-Same i x db same j = grind (arith, A.find_one-save, same j)

    move_money-Same : (i k x y : ℕ) → Keeps Same (move_money t i k x y)
    unfolding move_money
    move_money-Same i k x y =
        Keeps->> Same (debit_account t.accounts i x) (credit_account t.accounts k y)
          (debit_account-Same i x) (credit_account-Same k y)

    settle-Same :
        (tx : Transaction) (move : Action Db (Unit {0}))
        → Keeps Same move
        → Keeps Same (settle t tx move)
    unfolding settle
    settle-Same tx move moving =
        let publish : Action Db Transaction = attempt t.commit >> pure (as_completed tx) in
        let finish : Action Db Transaction =
          attempt (t.transactions.save (as_completed tx)) >> publish in
        Keeps->> Same (attempt (t.transactions.save tx)) (move >> finish) (save_transaction-Same tx)
          (Keeps->> Same move finish moving (
            Keeps->> Same (attempt (t.transactions.save (as_completed tx))) publish
              (save_transaction-Same (as_completed tx))
              (Keeps->> Same (attempt t.commit) (pure (as_completed tx)) commit-Same
                λ db same. same)))

    transfer_execute-Same :
        (draw : Draw) (user_id : ℕ) (dto : InitiateTransferDto) (header : Option String)
        (src dest : Account) (fee : ℕ)
        → Keeps
            (OnDb Same)
            (vault_api.Transactions.Transfer.execute t draw user_id dto header src dest fee)
    unfolding vault_api.Transactions.Transfer.execute record_failure
    transfer_execute-Same draw user_id dto header src dest fee s same j =
        let tx : Transaction = transfer_record draw dto header fee src dest in
        let move : Action Db (Unit {0}) =
          move_money t src.id dest.id (dto.amount + fee) dto.amount in
        let settled =
          settle-Same tx move (move_money-Same src.id dest.id (dto.amount + fee) dto.amount) s.db
            same j in
        elim (Result-cases (settle t tx move s.db).0) [
          | inl (done, is_done) ↦ ground (arith, settled)
          | inr (e, failed) ↦ grind (arith, T.find_one-save, same j)
        ]

    pub transfer-Same :
        (draw : Draw) (user_id : ℕ) (dto : InitiateTransferDto) (header : Option String)
        → Keeps (OnDb Same) (vault_api.Transactions.Transfer.transfer t draw user_id dto header)
    unfolding vault_api.Transactions.Transfer.transfer find_one find_by_account_number
    transfer-Same draw user_id dto header s same j =
        elim (Option-cases (t.accounts.find_one (λ a. a.id == dto.source_account_id) s.db)) [
          | inl missing ↦ ground (arith, same j)
          | inr (src, src_row) ↦
              elim (Option-cases
                (find_by_account_number t.accounts dto.destination_account_number s.db)) [
                  | inl missing ↦ ground (arith, same j)
                  | inr (dest, dest_row) ↦
                      let priced =
                        calculate t.fees draw.now TransactionType.transfer (rounded_kobo dto.amount)
                          s in
                      let (quote, quoted) =
                        calculate_total t.fees draw.now TransactionType.transfer
                          (rounded_kobo dto.amount) s in
                      let kept =
                        calculate-db t.fees draw.now TransactionType.transfer
                          (rounded_kobo dto.amount) s in
                      let there : Same priced.1.db = λ i. rw kept.0 (same i) in
                      ground (
                        arith,
                        same j,
                        transfer_execute-Same draw user_id dto header src dest quote.fee priced.1
                            there j,
                      )
                ]
        ]

    pub deposit-Same :
        (draw : Draw) (dto : DepositDto)
        → Keeps (OnDb Same) (vault_api.Transactions.Deposit.deposit t draw dto)
    unfolding vault_api.Transactions.Deposit.deposit find_one vault_api.Transactions.Deposit.execute
        record_failure
    deposit-Same draw dto s same j =
        elim (Option-cases (t.accounts.find_one (λ a. a.id == dto.account_id) s.db)) [
          | inl missing ↦ ground (arith, same j)
          | inr (a, found) ↦
              let tx : Transaction = deposit_record draw dto a in
              let move : Action Db (Unit {0}) = credit_account t.accounts a.id dto.amount in
              let settled = settle-Same tx move (credit_account-Same a.id dto.amount) s.db same j in
              elim (Result-cases (settle t tx move s.db).0) [
                | inl (done, is_done) ↦ ground (arith, settled)
                | inr (e, failed) ↦ grind (arith, T.find_one-save, same j)
              ]
        ]

    pub withdraw-Same :
        (draw : Draw) (user_id : ℕ) (dto : WithdrawalDto) (header : Option String)
        → Keeps (OnDb Same) (vault_api.Transactions.Withdrawal.withdraw t draw user_id dto header)
    unfolding vault_api.Transactions.Withdrawal.withdraw find_one
        vault_api.Transactions.Withdrawal.execute record_failure
    withdraw-Same draw user_id dto header s same j =
        elim (Option-cases (t.accounts.find_one (λ a. a.id == dto.account_id) s.db)) [
          | inl missing ↦ ground (arith, same j)
          | inr (a, found) ↦
              let tx : Transaction = withdrawal_record draw dto header a in
              let move : Action Db (Unit {0}) = debit_account t.accounts a.id dto.amount in
              let settled = settle-Same tx move (debit_account-Same a.id dto.amount) s.db same j in
              elim (Result-cases (settle t tx move s.db).0) [
                | inl (done, is_done) ↦ ground (arith, settled, same j)
                | inr (e, failed) ↦ grind (arith, T.find_one-save, same j)
              ]
        ]
