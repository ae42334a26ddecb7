-- ===== src/Tests/NoticeTests.antt =====
-- Ada pays ben, and her inbox.
use vault_api.Prelude.{ℕ, String, ◌∷◌, [], ◌≡◌, refl, none, nat_eq, string_eq}
use vault_api.Prelude.Int.{◌+ℤ◌, ◌-ℤ◌}
use vault_api.Http.Action.{ok}
use vault_api.App.{App}
use vault_api.Common.Currency.{Currency-discrete}
use vault_api.Fees.Entity.{FeeType-discrete, FeeStatus-discrete}
use vault_api.Events.{DomainEvent}
use vault_api.Orm.{IsLawful}
use vault_api.Orm.Lists.{list_repository, list_repository-IsLawful}
use vault_api.Accounts.Entity.{AccountStatus-discrete}
use vault_api.Transactions.Entity.{Transaction, TransactionType-discrete}
use vault_api.Transactions.Transfer.{transfer}
use vault_api.Notifications.Delivery.{IsTold, on_latest, transfer-IsTold}
use vault_api.Tests.Application.{
  Store, opening, running, services, store_tables, store_tables-AreLawful,
}
use vault_api.Tests.MoneyTests.{draw, order, receipt}

notifications-IsLawful : IsLawful (λ n. n.id) services.notifications
notifications-IsLawful = list_repository-IsLawful _ _ _ (λ l db. refl)

abbrev in_figures : ℕ → String
in_figures n = ""

abbrev free_receipt : Transaction
free_receipt = record receipt { fee = 0 }

abbrev afterwards : App Store
afterwards = (transfer store_tables draw 7 order none (running opening)).1

abbrev handled : Store
handled = (on_latest services.notifications in_figures 90 1010 afterwards.events afterwards.db).1

paid : transfer store_tables draw 7 order none (running opening) ≡ (ok free_receipt, afterwards)
unfolding transfer list_repository nat_eq string_eq Currency-discrete AccountStatus-discrete
    TransactionType-discrete FeeType-discrete FeeStatus-discrete ◌+ℤ◌ ◌-ℤ◌
    vault_api.Accounts.find_one vault_api.Accounts.find_by_account_number vault_api.Fees.calculate
    vault_api.Transactions.Transfer.execute vault_api.Transactions.settle
    vault_api.Transactions.move_money vault_api.Fees.Calculation.calculate_by
    vault_api.Fees.active_rules
paid = refl

transfer-IsTold_example :
    ((e : DomainEvent) × (afterwards.events ≡ e ∷ []))
    × IsTold services.notifications 90 7 5000000000 free_receipt afterwards.db handled
unfolding on_latest list_repository nat_eq string_eq transfer vault_api.Accounts.find_one
    vault_api.Accounts.find_by_account_number Currency-discrete vault_api.Fees.calculate
    vault_api.Transactions.Transfer.execute vault_api.Transactions.settle
    vault_api.Transactions.move_money AccountStatus-discrete vault_api.Fees.Calculation.calculate_by
    vault_api.Fees.active_rules
transfer-IsTold_example =
    transfer-IsTold services.notifications store_tables store_tables-AreLawful
      notifications-IsLawful in_figures draw 7 order none (running opening) afterwards free_receipt
      90 1010 _ handled paid refl
