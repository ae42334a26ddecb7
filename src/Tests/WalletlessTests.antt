-- ===== src/Tests/WalletlessTests.antt =====
-- An application without wallets: a new account, an approval of KYC and a look at the limits.
use vault_api.Prelude.{List, [], ◌∷◌, none, some, refl, ◌≡◌}
use vault_api.Http.Exception.{not_found}
use vault_api.Http.Action.{err}
use vault_api.Orm.Lists.{list_repository-IsLawful, list_repository-IsApart}
use vault_api.Accounts.Controller as AccountsController
use vault_api.Kyc.Entity.{SubmitKycDto, nin, approve}
use vault_api.Kyc.Controller as KycController
use vault_api.Wallets.Entity.{premium}
use vault_api.Wallets.Controller as WalletsController
use vault_api.Api.{accounts, kyc, wallets}
use vault_api.Api.Exchange.{Arrival}
use vault_api.Api.Exchange.Safety.{Sent, exchange_all}
use vault_api.Api.Wallets.{WalletsApart, NoWallets}
use vault_api.Api.Wallets.Requests.{exchange_all-NoWallets}
use vault_api.Tests.Application.{Store, opening, running, services, store_tables-AreLawful}
use vault_api.Tests.ApiTests.{draws}
use vault_api.Tests.HttpTests.{arrival, within, usual}

services-WalletsApart : WalletsApart services
services-WalletsApart = record {
  lawful = list_repository-IsLawful _ _ _ (λ l db. refl);
  accounts_apart = list_repository-IsApart _ _ _ _ _ _ (λ l db. refl);
  transactions_apart = list_repository-IsApart _ _ _ _ _ _ (λ l db. refl);
  fees_apart = list_repository-IsApart _ _ _ _ _ _ (λ l db. refl);
  users_apart = list_repository-IsApart _ _ _ _ _ _ (λ l db. refl);
  submissions_apart = list_repository-IsApart _ _ _ _ _ _ (λ l db. refl);
  beneficiaries_apart = list_repository-IsApart _ _ _ _ _ _ (λ l db. refl);
  notifications_apart = list_repository-IsApart _ _ _ _ _ _ (λ l db. refl);
  commit-ok = store_tables-AreLawful.commit-ok;
}

opening-NoWallets : NoWallets services opening
unfolding vault_api.Orm.Lists.list_repository
opening-NoWallets j = refl

abbrev by_root : Arrival
by_root = record arrival { request = record arrival.request { token = some "1" } }

abbrev papers : SubmitKycDto
papers = record {
  document_type = nin;
  document_number = "22222222222";
  document_front_url = none;
  document_back_url = none;
  selfie_url = none;
}

abbrev traffic : List Sent
traffic =
    record {
      draws = draws;
      arrival = arrival;
      endpoint = accounts (AccountsController.create (record { type = none; currency = none }));
    }
    ∷ record { draws = draws; arrival = arrival; endpoint = kyc (KycController.submit papers) }
    ∷ record {
      draws = draws;
      arrival = by_root;
      endpoint =
          kyc (
            KycController.review draws.id (record { decision = approve; rejection_reason = none }));
    }
    ∷ record {
      draws = draws;
      arrival = by_root;
      endpoint = wallets (WalletsController.upgrade_tier draws.id premium);
    }
    ∷ []

exchange_all-NoWallets_example :
    let db : Store = (exchange_all services within usual traffic (running opening)).db in
    NoWallets services db
    × ((r : WalletsController.Route)
        → WalletsController.handle services.wallets r db
          ≡ (err (not_found "Wallet not found for this account"), db))
exchange_all-NoWallets_example =
    exchange_all-NoWallets services services-WalletsApart within usual traffic (running opening)
      opening-NoWallets
