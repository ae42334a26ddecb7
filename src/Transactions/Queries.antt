-- ===== src/Transactions/Queries.antt =====
-- The queries of `TransactionsService`. The rows that a query finds come newest first, as the
-- database sorts them: `sorted` is that order. `getDailyVolume`, which is one aggregate of the
-- database, is left out.
-- Source: src/transactions/transactions.service.ts.
use vault_api.Prelude.{
  ℕ, String, Bool, true, ◌&&◌, ◌||◌, Option, some, List, ◌==◌, nat_eq, string_eq, option_eq,
}
use vault_api.Http.Exception.{not_found}
use vault_api.Http.Action.{Action, ◌>>=◌, ◌>>◌, or_throw, gets}
use vault_api.Common.Pagination.{PaginatedResult, page_of}
use vault_api.Accounts.{find_one}
use vault_api.Transactions.{Tables}
use vault_api.Transactions.Entity.{Transaction, pending, status_eq}

module _ {Db : Type 0} (t : Tables Db) (sorted : List Transaction → List Transaction) where
  abbrev pub touches : ℕ → Transaction → Bool
  touches account_id x =
      x.source_account_id == some account_id || x.destination_account_id == some account_id

  unfoldable pub find_by_account : ℕ → ℕ → ℕ → ℕ → Action Db (PaginatedResult Transaction)
  find_by_account account_id user_id page limit = do
    find_one t.accounts account_id (some user_id)
    gets (λ db. page_of 100 (sorted (t.transactions.find (touches account_id) db)) page limit)

  unfoldable pub find_all : ℕ → ℕ → Action Db (PaginatedResult Transaction)
  find_all page limit =
      gets (λ db. page_of 100 (sorted (t.transactions.find (λ _. true) db)) page limit)

module _ {Db : Type 0} (t : Tables Db) where
  unfoldable pub find_by_reference : String → Action Db Transaction
  find_by_reference reference = do
    or_throw (← gets (t.transactions.find_one (λ x. x.reference == reference)))
        (not_found "Transaction not found")

  unfoldable pub find_pending_by_reference : String → Db → Option Transaction
  find_pending_by_reference reference =
      t.transactions.find_one (λ x. x.reference == reference && x.status == pending)
