-- ===== src/Accounts.antt =====
-- `AccountsService`. The account table is TypeORM's, reached through the interface of `Orm`; inside a
-- database transaction the same methods run on the transaction's copy of the state.
-- Amounts are in ten-thousandths of a kobo, so that every fee is a whole number of them.
-- Source: src/accounts/accounts.service.ts, src/accounts/dto/account.dto.ts.
pub mod Entity
pub mod Debit
pub mod Interleaving
pub mod Ownership
pub mod Controller
pub mod Sound
use mathlib.Core.Option
use vault_api.Prelude.{
  ℕ, String, Bool, true, false, Option, none, some, List, ◌==◌, ◌!=◌, nat_eq, string_eq,
  if◌then◌else◌,
}
use vault_api.Prelude.Int.{ℤ, pos, ◌-ℤ◌, ◌+ℤ◌, ltb_ℤ}
use vault_api.Http.Exception.{not_found, forbidden, bad_request}
use vault_api.Http.Action.{Result, Action, ◌>>=◌, ◌>>◌, pure, throw_if, or_throw, gets, attempt}
use vault_api.Orm.{Repository}
use vault_api.Common.Currency.{Currency, ngn}
use vault_api.Accounts.Entity.{
  Account, AccountType, wallet, AccountStatus, active, frozen, status_eq,
}

pub record CreateAccountDto : Type 0 where
  pub type : Option AccountType
  pub currency : Option Currency

-- `a ?? b`
abbrev or_default : {A : Type 0} → Option A → A → A
or_default none b = b
or_default (some a) b = a

-- `userId && account.userId !== userId`, where `undefined` is `none`.
abbrev pub is_denied : Option ℕ → ℕ → Bool
is_denied none owner = false
is_denied (some user_id) owner = owner != user_id

module _ {Db : Type 0} (accounts : Repository Account Db) where
  -- The primary key is the database's choice, and `generateAccountNumber` draws the number at random:
  -- both are arguments.
  unfoldable pub create : ℕ → String → ℕ → CreateAccountDto → Action Db Account
  create id account_number user_id dto =
      let account : Account = record {
        id = id;
        account_number = account_number;
        type = or_default dto.type wallet;
        status = active;
        currency = or_default dto.currency ngn;
        balance = pos 0;
        ledger_balance = pos 0;
        user_id = user_id;
      } in
      do attempt (accounts.save account); pure account

  unfoldable pub find_all_for_user : ℕ → Db → List Account
  find_all_for_user user_id = accounts.find (λ a. a.user_id == user_id)

  unfoldable pub find_one : ℕ → Option ℕ → Action Db Account
  find_one id user_id = do
    account ←
        or_throw (← gets (accounts.find_one (λ a. a.id == id))) (not_found "Account not found")
    throw_if (is_denied user_id account.user_id) (forbidden "Access denied")
    pure account

  unfoldable pub find_by_account_number : String → Db → Option Account
  find_by_account_number number = accounts.find_one (λ a. a.account_number == number)

  unfoldable pub freeze : ℕ → ℕ → Action Db Account
  unfolding find_one
  freeze id user_id = do
    account ← find_one id (some user_id)
    throw_if (account.status == frozen) (bad_request "Account is already frozen")
    let account' = record account { status = frozen }
    attempt (accounts.save account')
    pure account'

  unfoldable pub unfreeze : ℕ → Action Db Account
  unfolding find_one
  unfreeze id = do
    account ← find_one id none
    let account' = record account { status = active }
    attempt (accounts.save account')
    pure account'

  unfoldable pub debit_account : ℕ → ℕ → Action Db (Unit {0})
  debit_account account_id amount = do
    account ←
        or_throw (← gets (accounts.find_one (λ a. a.id == account_id)))
          (not_found "Source account not found")
    throw_if (account.status != active) (bad_request "Account is not active")
    throw_if (ltb_ℤ account.balance (pos amount)) (bad_request "Insufficient funds")
    attempt (
        accounts.save (record account {
          balance = account.balance -ℤ pos amount;
          ledger_balance = account.ledger_balance -ℤ pos amount;
        }))

  -- The status is not looked at: a frozen or closed account is credited too.
  unfoldable pub credit_account : ℕ → ℕ → Action Db (Unit {0})
  credit_account account_id amount = do
    account ←
        or_throw (← gets (accounts.find_one (λ a. a.id == account_id)))
          (not_found "Destination account not found")
    attempt (
        accounts.save (record account {
          balance = account.balance +ℤ pos amount;
          ledger_balance = account.ledger_balance +ℤ pos amount;
        }))
