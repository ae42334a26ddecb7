-- ===== src/Tests/BankTests.antt =====
-- The bank of two accounts, and two debits that overlap.
use vault_api.Prelude.{◌≡◌, refl, none, some, List, [], ◌∷◌, nat_eq, string_eq, arith}
use vault_api.Prelude.Int.{◌+ℤ◌, ◌-ℤ◌}
use vault_api.Common.Currency.{Currency-discrete}
use vault_api.Fees.{default_rules}
use vault_api.Fees.Entity.{FeeType-discrete, FeeStatus-discrete}
use vault_api.Transactions.Entity.{TransactionType-discrete}
use vault_api.Transactions.Transfer.{transfer}
use vault_api.Transactions.Deposit.{deposit}
use vault_api.Http.Action.{ok}
use vault_api.Orm.Lists.{list_repository}
use vault_api.Accounts.Entity.{AccountStatus-discrete}
use vault_api.Accounts.{debit_account}
use vault_api.Accounts.Debit.{account, debited}
use vault_api.Accounts.Interleaving.{race, start, overlapping, finished, race_lost_update}
use vault_api.Transactions.Ledger.{Request, transfer_request, deposit_request, serve_all}
use vault_api.Transactions.Bank.{Steps, books, history}
use vault_api.Transactions.Bank.Refinement.{serve_all-Steps}
use vault_api.Transactions.Bank.Owners.{NoneIsBy}
use vault_api.Tests.Database.{Memory, app, tables, tables-AreLawful, accounts-IsLawful}
use vault_api.Tests.MoneyTests.{ada, bank, draw, order, top_up}

abbrev day : List Request
day = transfer_request draw 7 order none ∷ deposit_request draw top_up ∷ []

serve_all-Steps_example :
    Steps
      (history tables day (app bank))
      (books tables bank)
      (books tables (serve_all tables day (app bank)).db)
serve_all-Steps_example = serve_all-Steps tables tables-AreLawful day (app bank)

day_not_by_ben : NoneIsBy 8 (history tables day (app bank))
unfolding transfer deposit list_repository nat_eq string_eq Currency-discrete AccountStatus-discrete
    TransactionType-discrete FeeType-discrete FeeStatus-discrete default_rules ◌+ℤ◌ ◌-ℤ◌
    vault_api.Accounts.find_one vault_api.Accounts.find_by_account_number vault_api.Fees.calculate
    vault_api.Transactions.Transfer.execute vault_api.Transactions.Deposit.execute
    vault_api.Transactions.settle vault_api.Transactions.move_money
    vault_api.Fees.Calculation.calculate_by vault_api.Fees.active_rules
    vault_api.Accounts.credit_account
day_not_by_ben = ((λ (h : _). omega (arith, h)), ((λ h. h), tt))

abbrev poorer_bank : Memory
poorer_bank = (debit_account tables.accounts 1 6000000000 bank).1

abbrev last_bank : Memory
last_bank = (debit_account tables.accounts 1 5000000000 bank).1

race_lost_update_example :
    let end_ =
      race tables.accounts 1 6000000000 5000000000
        (overlapping tables.accounts)
        (start tables.accounts bank) in
    (end_.one ≡ finished (ok tt))
    × (end_.two ≡ finished (ok tt))
    × (account tables.accounts 1 end_.db ≡ some (debited 5000000000 ada))
unfolding list_repository nat_eq
race_lost_update_example =
    race_lost_update tables.accounts accounts-IsLawful 1 6000000000 5000000000 bank _ _ ada refl
      refl (omega arith) (omega arith) refl refl
