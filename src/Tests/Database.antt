-- ===== src/Tests/Database.antt =====
-- A database in memory, which shows that what the services rely on can be met.
use vault_api.Prelude.{refl, List, [], none}
use vault_api.Http.Action.{ok}
use vault_api.Orm.{IsLawful}
use vault_api.Orm.Lists.{list_repository, list_repository-IsLawful, list_repository-IsApart}
use vault_api.Accounts.Entity.{Account}
use vault_api.Transactions.Entity.{Transaction}
use vault_api.Fees.Entity.{FeeConfig}
use vault_api.Transactions.{Tables}
use vault_api.Transactions.Lawful.{AreLawful}
use vault_api.Transactions.Funds.{AreAvailable}
use vault_api.App.{App}

pub record Memory : Type 0 where
  pub account_rows : List Account
  pub transaction_rows : List Transaction
  pub fee_rows : List FeeConfig

abbrev pub empty : Memory
empty = record { account_rows = []; transaction_rows = []; fee_rows = [] }

abbrev pub app : Memory → App Memory
app db = record {
  db = db;
  fee_cache = none;
  fee_cache_expiry = 0;
  attempts = [];
  audit = [];
  events = [];
}

abbrev put_accounts : List Account → Memory → Memory
put_accounts l db = record db { account_rows = l }

abbrev put_transactions : List Transaction → Memory → Memory
put_transactions l db = record db { transaction_rows = l }

abbrev put_fees : List FeeConfig → Memory → Memory
put_fees l db = record db { fee_rows = l }

abbrev pub tables : Tables Memory
tables = record {
  accounts = list_repository (λ a. a.id) (λ db. db.account_rows) put_accounts;
  transactions = list_repository (λ x. x.id) (λ db. db.transaction_rows) put_transactions;
  fees = list_repository (λ r. r.id) (λ db. db.fee_rows) put_fees;
  commit = ok;
}

pub accounts-IsLawful : IsLawful (λ a. a.id) tables.accounts
accounts-IsLawful =
    list_repository-IsLawful (λ a. a.id) (λ db. db.account_rows) put_accounts (λ l db. refl)

pub fees-IsLawful : IsLawful (λ r. r.id) tables.fees
fees-IsLawful = list_repository-IsLawful (λ r. r.id) (λ db. db.fee_rows) put_fees (λ l db. refl)

pub tables-AreLawful : AreLawful tables
tables-AreLawful = record {
  accounts = accounts-IsLawful;
  transactions =
      list_repository-IsLawful (λ x. x.id) (λ db. db.transaction_rows) put_transactions
        (λ l db. refl);
  accounts_apart = list_repository-IsApart _ _ _ _ _ _ (λ l db. refl);
  transactions_apart = list_repository-IsApart _ _ _ _ _ _ (λ l db. refl);
  commit-ok = λ db db' h. cc;
}

pub tables-AreAvailable : AreAvailable tables
unfolding list_repository
tables-AreAvailable = record {
  account_saved = λ a db. (_, refl);
  transaction_saved = λ x db. (_, refl);
  committed = λ db. refl;
}
