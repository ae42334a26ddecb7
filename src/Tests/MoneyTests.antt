-- ===== src/Tests/MoneyTests.antt =====
-- Transfers, deposits and withdrawals between two accounts.
use vault_api.Prelude.{◌≡◌, refl, none, some, [], ◌∷◌, nat_eq, string_eq, arith}
use vault_api.Prelude.Int.{pos, ◌+ℤ◌, ◌-ℤ◌}
use vault_api.Http.Action.{ok, err}
use vault_api.App.{App}
use vault_api.Orm.Lists.{list_repository}
use vault_api.Common.Currency.{Currency, Currency-discrete}
use vault_api.Accounts.Entity.{Account, wallet, AccountStatus, AccountStatus-discrete}
use vault_api.Fees.{default_rules}
use vault_api.Transactions.Entity.{
  Transaction, InitiateTransferDto, DepositDto, WithdrawalDto, TransactionType, completed,
  TransactionType-discrete,
}
use vault_api.Fees.Entity.{FeeType-discrete, FeeStatus-discrete}
use vault_api.Transactions.{Draw}
use vault_api.Transactions.Transfer.{transfer}
use vault_api.Transactions.Transfer.Effect.{TransferDone, transfer-ok, transfer-err}
use vault_api.Transactions.Withdrawal.{withdraw}
use vault_api.Transactions.Withdrawal.Effect.{WithdrawalDone, withdraw-ok}
use vault_api.Transactions.Deposit.{deposit}
use vault_api.Transactions.Deposit.Effect.{DepositDone, deposit-ok}
use vault_api.Transactions.Funds.{verdict, transfer-verdict}
use vault_api.Transactions.Ledger.{IsConserved, transfer_conserves}
use vault_api.Accounts.Debit.{account}
use vault_api.Accounts.Sound.{IsSound}
use vault_api.Http.Exception.{bad_request}
use vault_api.Fees.Calculation.{FeeCalculation}
use vault_api.Tests.Database.{
  Memory, empty, app, tables, tables-AreLawful, tables-AreAvailable, accounts-IsLawful,
}

abbrev pub ada : Account
ada = record {
  id = 1;
  account_number = "0123456789";
  type = wallet;
  status = AccountStatus.active;
  currency = Currency.ngn;
  balance = pos 10000000000;
  ledger_balance = pos 10000000000;
  user_id = 7;
}

abbrev pub ben : Account
ben = record {
  id = 2;
  account_number = "9876543210";
  type = wallet;
  status = AccountStatus.active;
  currency = Currency.ngn;
  balance = pos 500000;
  ledger_balance = pos 500000;
  user_id = 8;
}

abbrev pub bank : Memory
bank = record empty { account_rows = ada ∷ ben ∷ []; fee_rows = default_rules 1 2 3 }

abbrev pub draw : Draw
draw = record { now = 1000; id = 40; reference = "TXN-20240101-0000AAAA" }

-- 5000 naira.
abbrev pub order : InitiateTransferDto
order = record {
  source_account_id = 1;
  destination_account_number = "9876543210";
  amount = 5000000000;
  currency = none;
  description = none;
}

abbrev pub receipt : Transaction
receipt = record {
  id = 40;
  reference = "TXN-20240101-0000AAAA";
  type = TransactionType.transfer;
  status = completed;
  amount = 5000000000;
  fee = 75000000;
  currency = Currency.ngn;
  description = some "Transfer";
  metadata = none;
  source_account_id = some 1;
  destination_account_id = some 2;
  reversal_of = none;
  failure_reason = none;
  created_at = 1000;
}

-- More than the account holds.
abbrev large_order : InitiateTransferDto
large_order = record order { amount = 9990000000 }

abbrev after : InitiateTransferDto → App Memory
after dto = (transfer tables draw 7 dto none (app bank)).1

transfer_runs : transfer tables draw 7 order none (app bank) ≡ (ok receipt, after order)
unfolding transfer deposit withdraw list_repository nat_eq string_eq Currency-discrete
    AccountStatus-discrete TransactionType-discrete FeeType-discrete FeeStatus-discrete
    default_rules ◌+ℤ◌ ◌-ℤ◌ vault_api.Accounts.find_one vault_api.Accounts.find_by_account_number
    vault_api.Fees.calculate vault_api.Transactions.Transfer.execute vault_api.Transactions.settle
    vault_api.Transactions.move_money vault_api.Fees.Calculation.calculate_by
    vault_api.Fees.active_rules
transfer_runs = refl

transfer_short :
    transfer tables draw 7 large_order none (app bank)
    ≡ (err (bad_request "Insufficient funds"), after large_order)
unfolding transfer deposit withdraw list_repository nat_eq string_eq Currency-discrete
    AccountStatus-discrete TransactionType-discrete FeeType-discrete FeeStatus-discrete
    default_rules ◌+ℤ◌ ◌-ℤ◌ vault_api.Accounts.find_one vault_api.Accounts.find_by_account_number
    vault_api.Fees.calculate vault_api.Transactions.Transfer.execute vault_api.Transactions.settle
    vault_api.Transactions.move_money vault_api.Fees.Calculation.calculate_by
    vault_api.Fees.active_rules vault_api.Http.Exception.to_error
transfer_short = refl

transfer-ok_example :
    TransferDone tables tables-AreLawful draw 7 order none (app bank) (after order) receipt
transfer-ok_example =
    transfer-ok tables tables-AreLawful draw 7 order none (app bank) (after order) receipt
      transfer_runs

transfer-err_example :
    account tables.accounts 1 (after large_order).db ≡ account tables.accounts 1 bank
transfer-err_example =
    transfer-err tables tables-AreLawful draw 7 large_order none (app bank) (after large_order)
      (bad_request "Insufficient funds") transfer_short 1

transfer_conserves_example : IsConserved tables tables-AreLawful 75000000 bank (after order).db
transfer_conserves_example =
    transfer_conserves tables tables-AreLawful draw 7 order none (app bank) (after order) receipt
      transfer_runs

abbrev quote : FeeCalculation
quote = record { fee = 75000000; rule_applied = "Standard Transfer Fee" }

transfer-verdict_example :
    (transfer tables draw 7 order none (app bank)).0 ≡ verdict ada 5075000000 receipt
unfolding transfer deposit withdraw list_repository nat_eq string_eq Currency-discrete
    AccountStatus-discrete TransactionType-discrete FeeType-discrete FeeStatus-discrete
    default_rules ◌+ℤ◌ ◌-ℤ◌ vault_api.Accounts.find_by_account_number vault_api.Fees.calculate
    vault_api.Fees.Calculation.calculate_by vault_api.Fees.active_rules
transfer-verdict_example =
    transfer-verdict tables tables-AreLawful tables-AreAvailable draw 7 order none ada ben
      (omega arith) (app bank) quote refl refl refl refl refl

abbrev cash : WithdrawalDto
cash = record { account_id = 1; amount = 20000000; description = none }

abbrev slip : Transaction
slip = record receipt {
  type = TransactionType.withdrawal;
  amount = 20000000;
  fee = 0;
  description = some "Withdrawal";
  destination_account_id = none;
}

withdraw_runs :
    withdraw tables draw 7 cash none (app bank)
    ≡ (ok slip, (withdraw tables draw 7 cash none (app bank)).1)
unfolding transfer deposit withdraw list_repository nat_eq string_eq Currency-discrete
    AccountStatus-discrete TransactionType-discrete FeeType-discrete FeeStatus-discrete
    default_rules ◌+ℤ◌ ◌-ℤ◌ vault_api.Accounts.find_one vault_api.Transactions.Withdrawal.execute
    vault_api.Transactions.settle vault_api.Accounts.debit_account
withdraw_runs = refl

withdraw-ok_example :
    WithdrawalDone tables tables-AreLawful draw 7 cash none
      (app bank)
      (withdraw tables draw 7 cash none (app bank)).1
      slip
withdraw-ok_example =
    withdraw-ok tables tables-AreLawful draw 7 cash none (app bank)
      (withdraw tables draw 7 cash none (app bank)).1 slip withdraw_runs

abbrev pub top_up : DepositDto
top_up = record { account_id = 2; amount = 30000000; description = none; reference = some "ps_1" }

abbrev credit_note : Transaction
credit_note = record receipt {
  type = TransactionType.deposit;
  reference = "ps_1";
  amount = 30000000;
  fee = 0;
  description = some "Deposit";
  source_account_id = none;
}

deposit_runs :
    deposit tables draw top_up (app bank)
    ≡ (ok credit_note, (deposit tables draw top_up (app bank)).1)
unfolding transfer deposit withdraw list_repository nat_eq string_eq Currency-discrete
    AccountStatus-discrete TransactionType-discrete FeeType-discrete FeeStatus-discrete
    default_rules ◌+ℤ◌ ◌-ℤ◌ vault_api.Accounts.find_one vault_api.Transactions.Deposit.execute
    vault_api.Transactions.settle vault_api.Accounts.credit_account
deposit_runs = refl

deposit-ok_example :
    DepositDone tables tables-AreLawful draw top_up
      (app bank)
      (deposit tables draw top_up (app bank)).1
      credit_note
deposit-ok_example =
    deposit-ok tables tables-AreLawful draw top_up (app bank)
      (deposit tables draw top_up (app bank)).1 credit_note deposit_runs

pub bank-IsSound : IsSound tables.accounts accounts-IsLawful bank
unfolding list_repository
bank-IsSound j a found = ground arith

abbrev pub keyed_receipt : Transaction
keyed_receipt = record receipt { metadata = some "k" }

abbrev pub keyed_after : App Memory
keyed_after = (transfer tables draw 7 order (some "k") (app bank)).1

pub keyed_run : transfer tables draw 7 order (some "k") (app bank) ≡ (ok keyed_receipt, keyed_after)
unfolding transfer deposit withdraw list_repository nat_eq string_eq Currency-discrete
    AccountStatus-discrete TransactionType-discrete FeeType-discrete FeeStatus-discrete
    default_rules ◌+ℤ◌ ◌-ℤ◌ vault_api.Accounts.find_one vault_api.Accounts.find_by_account_number
    vault_api.Fees.calculate vault_api.Transactions.Transfer.execute vault_api.Transactions.settle
    vault_api.Transactions.move_money vault_api.Fees.Calculation.calculate_by
    vault_api.Fees.active_rules
keyed_run = refl
