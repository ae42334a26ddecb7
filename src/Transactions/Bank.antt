-- ===== src/Transactions/Bank.antt =====
-- What the transaction service promises, without tables, records, fee rules or failures: a bank, which
-- knows of each account its owner, its currency, whether it may pay, and its funds.
pub mod Refinement
pub mod Owners
use mathlib.Core.Option
use vault_api.Prelude.{
  ℕ, ◌+◌, ◌≡◌, ◌≢◌, Bool, true, false, Option, some, String, List, [], ◌∷◌, ◌==◌, nat_eq,
  if◌then◌else◌,
}
use vault_api.Prelude.Int.{ℤ, pos, ◌+ℤ◌, ◌-ℤ◌, ◌≤ℤ◌}
use vault_api.Http.Action.{Result, ok, err}
use vault_api.App.{App}
use vault_api.Common.Currency.{Currency}
use vault_api.Accounts.Entity.{Account, active, status_eq}
use vault_api.Accounts.Debit.{account}
use vault_api.Transactions.Entity.{Transaction, InitiateTransferDto, DepositDto, WithdrawalDto}
use vault_api.Transactions.{Draw, Tables}
use vault_api.Transactions.Transfer.{transfer}
use vault_api.Transactions.Deposit.{deposit}
use vault_api.Transactions.Withdrawal.{withdraw}
use vault_api.Transactions.Ledger.{
  Request, transfer_request, deposit_request, withdraw_request, serve,
}

pub record Holding : Type 0 where
  pub owner : ℕ
  pub currency : Currency
  pub may_pay : Bool
  pub funds : ℤ

abbrev pub Bank : Type 0
Bank = ℕ → Option Holding

abbrev pub less : ℕ → Holding → Holding
less x h = record h { funds = h.funds -ℤ pos x }

abbrev pub more : ℕ → Holding → Holding
more x h = record h { funds = h.funds +ℤ pos x }

-- One request, whether it was accepted, and the bank before and after it.
pub data Step : Request → Bool → Bank → Bank → Type 0 where
  refused : {r : Request} {b b' : Bank} → ((j : ℕ) → b' j ≡ b j) → Step r false b b'
  transferred :
      {draw : Draw} {user_id : ℕ} {dto : InitiateTransferDto} {key : Option String} {b b' : Bank}
      (k fee : ℕ) (from to : Holding)
      → b dto.source_account_id ≡ some from
      → b k ≡ some to
      → dto.source_account_id ≢ k
      → from.owner ≡ user_id
      → from.may_pay ≡ true
      → from.currency ≡ to.currency
      → pos (dto.amount + fee) ≤ℤ from.funds
      → ((j : ℕ)
          → b' j ≡ (
              if j == dto.source_account_id
              then some (less (dto.amount + fee) from)
              else if j == k
              then some (more dto.amount to)
              else b j))
      → Step (transfer_request draw user_id dto key) true b b'
  deposited :
      {draw : Draw} {dto : DepositDto} {b b' : Bank} (to : Holding)
      → b dto.account_id ≡ some to
      → ((j : ℕ) → b' j ≡ (if j == dto.account_id then some (more dto.amount to) else b j))
      → Step (deposit_request draw dto) true b b'
  withdrawn :
      {draw : Draw} {user_id : ℕ} {dto : WithdrawalDto} {key : Option String} {b b' : Bank}
      (from : Holding)
      → b dto.account_id ≡ some from
      → from.owner ≡ user_id
      → from.may_pay ≡ true
      → pos dto.amount ≤ℤ from.funds
      → ((j : ℕ) → b' j ≡ (if j == dto.account_id then some (less dto.amount from) else b j))
      → Step (withdraw_request draw user_id dto key) true b b'

-- A list of requests, each with whether it was accepted.
pub data Steps : List (Request × Bool) → Bank → Bank → Type 0 where
  stop : {b : Bank} → Steps [] b b
  follow :
      {r : Request} {accepted : Bool} {rest : List (Request × Bool)} {b c d : Bank}
      → Step r accepted b c
      → Steps rest c d
      → Steps ((r, accepted) ∷ rest) b d

-- What the bank knows of an account.
abbrev pub holding : Account → Holding
holding a = record {
  owner = a.user_id;
  currency = a.currency;
  may_pay = a.status == active;
  funds = a.balance;
}

abbrev returns : {A : Type 0} → Result A → Bool
returns (ok _) = true
returns (err _) = false

module _ {Db : Type 0} (t : Tables Db) where
  abbrev pub books : Db → Bank
  books db j = Option.map holding (account t.accounts j db)

  -- Whether a request returns.
  abbrev pub accepts : Request → App Db → Bool
  accepts (transfer_request draw u dto key) s = returns (transfer t draw u dto key s).0
  accepts (deposit_request draw dto) s = returns (deposit t draw dto s).0
  accepts (withdraw_request draw u dto key) s = returns (withdraw t draw u dto key s).0

  abbrev pub history : List Request → App Db → List (Request × Bool)
  history [] s = []
  history (r ∷ requests) s = (r, accepts r s) ∷ history requests (serve t r s)
