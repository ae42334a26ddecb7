-- ===== src/Transactions/Controller.antt =====
-- `TransactionsController`. The routes that move money out run `IdempotencyGuard` first; the query
-- parameters arrive as numbers.
-- Source: src/transactions/transactions.controller.ts.
use vault_api.Prelude.{ℕ, String, Bool, Option, List, [], ◌∷◌}
use vault_api.Http.Action.{Action, ◌>>=◌}
use vault_api.App.{App, on_db}
use vault_api.Common.Pagination.{PaginatedResult}
use vault_api.Users.Entity.{admin}
use vault_api.Auth.Guards.{Principal, Access, signed_in, for_roles, user_id_of}
use vault_api.Transactions.{Draw, Tables}
use vault_api.Transactions.Entity.{Transaction, InitiateTransferDto, DepositDto, WithdrawalDto}
use vault_api.Transactions.Idempotency.{can_activate}
use vault_api.Transactions.Queries.{find_by_account, find_by_reference}

-- A header that a request may carry is `none` where it is missing.
pub data Route : Type 0 where
  transfer : Option String → InitiateTransferDto → Route
  deposit : DepositDto → Route
  withdraw : Option String → WithdrawalDto → Route
  get_by_account : ℕ → ℕ → ℕ → Route
  get_by_reference : String → Route
  find_all : ℕ → ℕ → Route

unfoldable pub access : Route → Access
access (deposit dto) = for_roles (admin ∷ [])
access (find_all page limit) = for_roles (admin ∷ [])
access _ = signed_in

abbrev pub Reply : Route → Type 0
Reply (get_by_account account_id page limit) = PaginatedResult Transaction
Reply (find_all page limit) = PaginatedResult Transaction
Reply _ = Transaction

module _ {Db : Type 0} (t : Tables Db) (is_uuid : String → Bool)
    (sorted : List Transaction → List Transaction) where
  unfoldable pub handle : Draw → Option Principal → (route : Route) → Action (App Db) (Reply route)
  handle draw user (transfer header dto) = do
    key ← on_db (can_activate t is_uuid draw.now header)
    u ← user_id_of user
    vault_api.Transactions.Transfer.transfer t draw u dto key
  handle draw user (deposit dto) = vault_api.Transactions.Deposit.deposit t draw dto
  handle draw user (withdraw header dto) = do
    key ← on_db (can_activate t is_uuid draw.now header)
    u ← user_id_of user
    vault_api.Transactions.Withdrawal.withdraw t draw u dto key
  handle draw user (get_by_account account_id page limit) =
      user_id_of user >>= λ u. on_db (find_by_account t sorted account_id u page limit)
  handle draw user (get_by_reference reference) = on_db (find_by_reference t reference)
  handle draw user (find_all page limit) =
      on_db (vault_api.Transactions.Queries.find_all t sorted page limit)
