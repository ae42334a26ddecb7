-- ===== src/Tests/AccountTests.antt =====
-- Two accounts, one of them frozen and thawed.
use vault_api.Prelude.{◌≡◌, refl, some, nat_eq}
use vault_api.Http.Action.{ok}
use vault_api.Orm.Lists.{list_repository}
use vault_api.Accounts.Entity.{Account, frozen, AccountStatus-discrete}
use vault_api.Accounts.{find_one, freeze, unfreeze, debit_account, credit_account}
use vault_api.Accounts.Debit.{account}
use vault_api.Accounts.Ownership.{find_one-ok}
use vault_api.Tests.Database.{Memory, tables, accounts-IsLawful}
use vault_api.Tests.MoneyTests.{ada, bank}

abbrev frozen_bank : Memory
frozen_bank = (freeze tables.accounts 1 7 bank).1

abbrev thawed_bank : Memory
thawed_bank = (unfreeze tables.accounts 1 frozen_bank).1

abbrev frozen_ada : Account
frozen_ada = record ada { status = frozen }

abbrev poorer_bank : Memory
poorer_bank = (debit_account tables.accounts 1 3000 bank).1

abbrev richer_bank : Memory
richer_bank = (credit_account tables.accounts 2 3000 poorer_bank).1

freezing : freeze tables.accounts 1 7 bank ≡ (ok frozen_ada, frozen_bank)
unfolding freeze list_repository nat_eq AccountStatus-discrete
freezing = refl

thawing : unfreeze tables.accounts 1 frozen_bank ≡ (ok ada, thawed_bank)
unfolding unfreeze list_repository freeze nat_eq AccountStatus-discrete
thawing = refl

debiting : debit_account tables.accounts 1 3000 bank ≡ (ok tt, poorer_bank)
unfolding debit_account list_repository nat_eq AccountStatus-discrete
debiting = refl

crediting : credit_account tables.accounts 2 3000 poorer_bank ≡ (ok tt, richer_bank)
unfolding credit_account list_repository debit_account nat_eq AccountStatus-discrete
crediting = refl

find_one-ok_example :
    (account tables.accounts 1 bank ≡ some ada) × (ada.user_id ≡ 7) × (ada.id ≡ 1) × (bank ≡ bank)
unfolding find_one list_repository nat_eq
find_one-ok_example = find_one-ok tables.accounts accounts-IsLawful 1 7 bank bank ada refl
