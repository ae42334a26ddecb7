-- ===== src/Tests/WalletTests.antt =====
-- A wallet that spends, and one that changes its tier.
use vault_api.Prelude.{ℕ, String, ◌+◌, ◌≤◌, ◌≡◌, refl, some, List, [], ◌∷◌, nat_eq}
use vault_api.Http.Action.{ok}
use vault_api.Orm.{Repository, IsLawful}
use vault_api.Orm.Lists.{list_repository, list_repository-IsLawful}
use vault_api.Wallets.Entity.{Wallet, standard}
use vault_api.Wallets.{new_wallet, validate_spend_limit, record_spend, upgrade_tier}
use vault_api.Wallets.Spending.{wallet, spent, record_spend-validate_spend_limit}

abbrev wallets : Repository Wallet (List Wallet)
wallets = list_repository (λ w. w.id) (λ l. l) (λ l _. l)

wallets-IsLawful : IsLawful (λ w. w.id) wallets
wallets-IsLawful = list_repository-IsLawful (λ w. w.id) (λ l. l) (λ l _. l) (λ l db. refl)

abbrev purse : List Wallet
purse = new_wallet 5 1 ∷ []

abbrev naira : ℕ → String
naira n = "some"

abbrev in_a_month : ℕ → ℕ
in_a_month now = now + 2592000000

abbrev checked : List Wallet
checked = (validate_spend_limit wallets naira in_a_month 1000 5 4000000 purse).1

validated : validate_spend_limit wallets naira in_a_month 1000 5 4000000 purse ≡ (ok tt, checked)
unfolding validate_spend_limit list_repository nat_eq
validated = refl

abbrev recorded : List Wallet
recorded = (record_spend wallets 5 4000000 checked).1

record_spend-validate_spend_limit_example :
    (w w' : Wallet) × (wallet wallets wallets-IsLawful naira in_a_month 5 purse ≡ some w)
    × (wallet wallets wallets-IsLawful naira in_a_month 5 recorded ≡ some w')
    × (w'.monthly_spend ≡ spent 1000 w + 4000000)
    × (w'.monthly_spend ≤ w'.monthly_limit)
unfolding record_spend
record_spend-validate_spend_limit_example =
    record_spend-validate_spend_limit wallets wallets-IsLawful naira in_a_month 1000 5 4000000 purse
      checked recorded validated refl

abbrev upgraded : List Wallet
upgraded = (upgrade_tier wallets 1 standard purse).1
