-- ===== src/Tests/RetryTests.antt =====
-- A small transfer that is asked for twice under one key.
use vault_api.Prelude.{◌+◌, ◌≡◌, refl, true, some, nat_eq, string_eq, string_differ}
use vault_api.Prelude.Int.{◌+ℤ◌, ◌-ℤ◌}
use vault_api.Http.Action.{ok}
use vault_api.Common.Currency.{Currency-discrete}
use vault_api.Fees.{default_rules}
use vault_api.Fees.Entity.{FeeType-discrete, FeeStatus-discrete}
use vault_api.Orm.Lists.{list_repository}
use vault_api.App.{App}
use vault_api.Accounts.Entity.{Account, AccountStatus-discrete}
use vault_api.Accounts.Debit.{account, debited}
use vault_api.Auth.Guards.{Principal, principal_of}
use vault_api.Transactions.Entity.{Transaction, TransactionType-discrete, InitiateTransferDto}
use vault_api.Transactions.{Draw}
use vault_api.Transactions.Transfer.{transfer}
use vault_api.Transactions.Retries.{
  retried, both_arrived, guards_first, answered, overlapping_pays_twice,
}
use vault_api.Tests.Database.{Memory, app, tables, tables-AreLawful}
use vault_api.Tests.PinTests
use vault_api.Tests.MoneyTests.{bank, draw, order, keyed_receipt}

abbrev payer : Principal
payer = principal_of PinTests.ada

-- 1000 naira.
abbrev small_order : InitiateTransferDto
small_order = record order { amount = 1000000000 }

abbrev second_draw : Draw
second_draw = record { now = 1500; id = 41; reference = "TXN-20240101-0000BBBB" }

abbrev small_receipt : Transaction
small_receipt = record keyed_receipt { amount = 1000000000; fee = 15000000 }

abbrev second_receipt : Transaction
second_receipt = record small_receipt {
  id = 41;
  reference = "TXN-20240101-0000BBBB";
  created_at = 1500;
}

abbrev once : App Memory
once = (transfer tables draw 7 small_order (some "k") (app bank)).1

abbrev twice : App Memory
twice = (transfer tables second_draw 7 small_order (some "k") once).1

paid : transfer tables draw 7 small_order (some "k") (app bank) ≡ (ok small_receipt, once)
unfolding transfer list_repository nat_eq string_eq Currency-discrete AccountStatus-discrete
    TransactionType-discrete FeeType-discrete FeeStatus-discrete default_rules ◌+ℤ◌ ◌-ℤ◌
    vault_api.Accounts.find_one vault_api.Accounts.find_by_account_number vault_api.Fees.calculate
    vault_api.Transactions.Transfer.execute vault_api.Transactions.settle
    vault_api.Transactions.move_money vault_api.Fees.Calculation.calculate_by
    vault_api.Fees.active_rules
paid = refl

paid_again : transfer tables second_draw 7 small_order (some "k") once ≡ (ok second_receipt, twice)
unfolding transfer list_repository nat_eq string_eq Currency-discrete AccountStatus-discrete
    TransactionType-discrete FeeType-discrete FeeStatus-discrete default_rules ◌+ℤ◌ ◌-ℤ◌
    vault_api.Accounts.find_one vault_api.Accounts.find_by_account_number vault_api.Fees.calculate
    vault_api.Transactions.Transfer.execute vault_api.Transactions.settle
    vault_api.Transactions.move_money vault_api.Fees.Calculation.calculate_by
    vault_api.Fees.active_rules
paid_again = refl

overlapping_pays_twice_example :
    (retried tables
        (λ key. true)
        payer
        small_order
        (some "k")
        draw
        second_draw
        guards_first
        (both_arrived (app bank))
      ≡ record {
        one = answered (ok small_receipt);
        two = answered (ok second_receipt);
        app = twice;
      })
    × ((a : Account) × (account tables.accounts 1 bank ≡ some a)
        × (account tables.accounts 1 twice.db
            ≡ some (debited (1000000000 + 15000000) (debited (1000000000 + 15000000) a))))
unfolding list_repository nat_eq string_eq
overlapping_pays_twice_example =
    overlapping_pays_twice tables (λ key. true) payer small_order (some "k") "k" refl
      (string_differ "k" "" refl) refl tables-AreLawful draw second_draw (app bank) once twice
      small_receipt second_receipt refl refl paid paid_again
