-- ===== src/Transactions/Bank/Refinement.antt =====
-- The service, seen through what the bank knows, only ever takes the bank's steps.
use mathlib.Core.Option
use vault_api.Prelude.{ℕ, ap, inl, inr, Option, String, List, [], ◌∷◌, arith, nat_eq}
use vault_api.Http.Action.{Result-cases}
use vault_api.App.{App}
use vault_api.Transactions.Entity.{InitiateTransferDto, DepositDto, WithdrawalDto}
use vault_api.Transactions.{Draw, Tables}
use vault_api.Transactions.Lawful.{AreLawful}
use vault_api.Transactions.Transfer.{transfer}
use vault_api.Transactions.Transfer.Effect.{transfer-ok, transfer-err}
use vault_api.Transactions.Deposit.{deposit}
use vault_api.Transactions.Deposit.Effect.{deposit-ok, deposit-err}
use vault_api.Transactions.Withdrawal.{withdraw}
use vault_api.Transactions.Withdrawal.Effect.{withdraw-ok, withdraw-err}
use vault_api.Transactions.Ledger.{
  Request, transfer_request, deposit_request, withdraw_request, serve, serve_all,
}
use vault_api.Transactions.Bank.{
  Step, refused, transferred, deposited, withdrawn, Steps, stop, follow, holding, books, accepts,
  history,
}

module _ {Db : Type 0} (t : Tables Db) (L : AreLawful t) where
  transfer-Step :
      (draw : Draw) (u : ℕ) (dto : InitiateTransferDto) (key : Option String) (s : App Db)
      → let r = transfer_request draw u dto key in
        Step r (accepts t r s) (books t s.db) (books t (serve t r s).db)
  transfer-Step draw u dto key s =
      let done = transfer t draw u dto key s in
      elim (Result-cases done.0) [
        | inr (e, thrown) ↦ rw thrown (
            refused λ j.
              ap (Option.map holding) (transfer-err t L draw u dto key s done.1 e (ground arith) j))
        | inl (tx, returned) ↦
            let d = transfer-ok t L draw u dto key s done.1 tx (ground arith) in
            rw returned (
              transferred d.dest.id d.quote.fee (holding d.src) (holding d.dest)
                (ground (arith, d.moved.source_was, d.is_source))
                (ground (arith, d.moved.destination_was)) (ground (arith, d.apart, d.is_source))
                d.owned (ground (arith, d.moved.source_active)) d.one_currency d.moved.source_covers
                (λ j. ground (arith, d.moved.accounts_after j, d.is_source)))
      ]

  deposit-Step :
      (draw : Draw) (dto : DepositDto) (s : App Db)
      → let r = deposit_request draw dto in
        Step r (accepts t r s) (books t s.db) (books t (serve t r s).db)
  deposit-Step draw dto s =
      let done = deposit t draw dto s in
      elim (Result-cases done.0) [
        | inr (e, thrown) ↦ rw thrown (
            refused
              λ j. ap (Option.map holding) (deposit-err t L draw dto s done.1 e (ground arith) j))
        | inl (tx, returned) ↦
            let d = deposit-ok t L draw dto s done.1 tx (ground arith) in
            rw returned (
              deposited (holding d.dest) (ground (arith, d.moved.destination_was, d.is_asked))
                (λ j. ground (arith, d.moved.accounts_after j, d.is_asked)))
      ]

  withdraw-Step :
      (draw : Draw) (u : ℕ) (dto : WithdrawalDto) (key : Option String) (s : App Db)
      → let r = withdraw_request draw u dto key in
        Step r (accepts t r s) (books t s.db) (books t (serve t r s).db)
  withdraw-Step draw u dto key s =
      let done = withdraw t draw u dto key s in
      elim (Result-cases done.0) [
        | inr (e, thrown) ↦ rw thrown (
            refused λ j.
              ap (Option.map holding) (withdraw-err t L draw u dto key s done.1 e (ground arith) j))
        | inl (tx, returned) ↦
            let d = withdraw-ok t L draw u dto key s done.1 tx (ground arith) in
            rw returned (
              withdrawn (holding d.src) (ground (arith, d.moved.source_was, d.is_asked)) d.owned
                (ground (arith, d.moved.source_active)) d.moved.source_covers
                (λ j. ground (arith, d.moved.accounts_after j, d.is_asked)))
      ]

  -- Whatever a request is and however it ends, what it does to the accounts is the bank's step for it:
  -- accepted exactly if the call returns.
  pub serve-Step :
      (r : Request) (s : App Db) → Step r (accepts t r s) (books t s.db) (books t (serve t r s).db)
  serve-Step (transfer_request draw u dto key) s = transfer-Step draw u dto key s
  serve-Step (deposit_request draw dto) s = deposit-Step draw dto s
  serve-Step (withdraw_request draw u dto key) s = withdraw-Step draw u dto key s

  -- The detailed service refines the bank: any list of requests, served one after the other, takes the
  -- accounts through the bank's steps for those requests, each accepted exactly if its call returns;
  -- tables, records, fee rules and refused writes do not show in it otherwise.
  pub serve_all-Steps :
      (requests : List Request) (s : App Db)
      → Steps (history t requests s) (books t s.db) (books t (serve_all t requests s).db)
  serve_all-Steps [] s = stop
  serve_all-Steps (r ∷ requests) s =
      follow (serve-Step r s) (serve_all-Steps requests (serve t r s))
