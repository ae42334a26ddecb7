-- ===== src/Transactions/Lawful.antt =====
-- What the transaction service relies on: its three repositories keep the promises of `Orm`, a write
-- to one table leaves the others alone, and a commit that goes through publishes the copy as it is.
use vault_api.Prelude.{◌≡◌}
use vault_api.Http.Action.{ok}
use vault_api.Orm.{IsLawful, IsApart}
use vault_api.Transactions.{Tables}

pub record AreLawful {Db : Type 0} (t : Tables Db) : Type 0 where
  pub accounts : IsLawful (λ a. a.id) t.accounts
  pub transactions : IsLawful (λ x. x.id) t.transactions
  pub accounts_apart : IsApart t.accounts t.transactions
  pub transactions_apart : IsApart t.transactions t.accounts
  pub commit-ok : (db db' : Db) → t.commit db ≡ ok db' → db' ≡ db
