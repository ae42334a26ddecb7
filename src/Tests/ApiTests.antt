-- ===== src/Tests/ApiTests.antt =====
-- Requests with ada's token, with the administrator's and with none.
use vault_api.Prelude.{
  arith, false, List, [], ◌∷◌, some, none, refl, ◌≡◌, ◌↔◌, ◌∙◌, sym, ap, ℕ, nat_eq, string_eq,
}
use vault_api.Http.Exception.{unauthorized}
use vault_api.Http.Action.{ok, err}
use vault_api.Orm.Lists.{list_repository}
use vault_api.Accounts.Sound.{IsSound}
use vault_api.Accounts.Controller as AccountsController
use vault_api.Transactions.Controller as TransactionsController
use vault_api.Users.Entity.{User}
use vault_api.Users.{deactivate}
use vault_api.Auth.{login}
use vault_api.Auth.Guards.{signed_in, principal_of, authorise}
use vault_api.Auth.Guards.Entry.{MayEnter, authorise-MayEnter, authorise-deactivate}
use vault_api.Api.{Draws, Endpoint, accounts, transactions, webhooks, respond}
use vault_api.Http.Filter.{catch}
use vault_api.Http.Request.{HttpRequest}
use vault_api.Webhooks.Controller as WebhooksController
use vault_api.Api.Strangers.{respond_webhooks_stranger}
use vault_api.Api.Safety.{Incoming, answer_all}
use vault_api.Api.Owners.{StillHolds, IsSignedBy}
use vault_api.Api.Absence.{answer_all-StillHolds}
use vault_api.Orm.{row}
use mathlib.Core.Option.{some-injective, none-ne-some}
use vault_api.Tests.Application.{Store, opening, running, services, services-AreWired, verify, jwt}
use vault_api.Tests.PinTests.{plain, ada, users, users-IsLawful}
use vault_api.Tests.MoneyTests

abbrev pub draws : Draws
draws = record {
  now = 1000;
  later = 1001;
  id = 40;
  second_id = 41;
  third_id = 42;
  reference = "TXN-20240101-0000AAAA";
  account_number = "1111111111";
  password_salt = "";
  token_salt = "";
}

abbrev pub paying : Endpoint
paying = transactions (TransactionsController.transfer none MoneyTests.order)

abbrev depositing : Endpoint
depositing = transactions (TransactionsController.deposit MoneyTests.top_up)

abbrev pub freezing : Endpoint
freezing = accounts (AccountsController.freeze 1)

-- A payment of ada, a deposit that nobody asked for, and ada's freeze.
abbrev morning : List Incoming
morning =
    record { draws = draws; token = some "7"; endpoint = paying }
    ∷ record { draws = draws; token = none; endpoint = depositing }
    ∷ record { draws = draws; token = some "7"; endpoint = freezing }
    ∷ []

pub opening-IsSound : IsSound services.tables.accounts services-AreWired.tables.accounts opening
unfolding list_repository
opening-IsSound j a found = ground arith

-- Ada's token is not one of ben's, and neither is no token.
ada-not_ben :
    (now : ℕ) (db : Store)
    → row (λ u. u.id) services.users 7 db ≡ some ada
    → ¬ (IsSignedBy services 8 now (some "7") db)
unfolding list_repository nat_eq string_eq
ada-not_ben now db found h =
    let text : h.text ≡ "7" = sym (some-injective "7" h.text h.carried) in
    let payload : h.payload ≡ record { sub = 7; email = ada.email; role = ada.role } =
      sym (some-injective _ h.payload (sym (ap (verify now) text) ∙ h.good)) in
    let user : h.user ≡ ada =
      some-injective h.user ada
        (sym h.found ∙ ap (λ p. row (λ u. u.id) services.users p.sub db) payload ∙ found) in
    omega (arith, sym h.is_owner ∙ ap (λ u. u.id) user)

no_token-not_ben : (now : ℕ) (db : Store) → ¬ (IsSignedBy services 8 now none db)
no_token-not_ben now db h = none-ne-some h.text h.carried

-- A payment of ada, and what somebody without a token asks for.
abbrev from_others : List Incoming
from_others =
    record { draws = draws; token = some "7"; endpoint = paying }
    ∷ record { draws = draws; token = none; endpoint = depositing }
    ∷ record { draws = draws; token = none; endpoint = freezing }
    ∷ []

answer_all-StillHolds_example :
    StillHolds services MoneyTests.ben (answer_all services from_others (running opening)).db
unfolding list_repository nat_eq string_eq
answer_all-StillHolds_example =
    answer_all-StillHolds services services-AreWired from_others (running opening) MoneyTests.ben
      refl
      (
        omega arith,
        ada-not_ben 1000 opening refl,
        (omega arith, no_token-not_ben 1000 _, (omega arith, no_token-not_ben 1000 _, tt)),
      )

authorise-MayEnter_example :
    ((authorise plain users verify 1000 signed_in (some "7") (ada ∷ [])).0
      ≡ ok (some (principal_of ada)))
    ↔ MayEnter plain users verify 1000 signed_in (some "7") (ada ∷ []) (some (principal_of ada))
authorise-MayEnter_example =
    authorise-MayEnter plain users verify 1000 signed_in (some "7") (some (principal_of ada))
      (ada ∷ [])

abbrev locked_out : List User
locked_out = (deactivate plain users 7 (ada ∷ [])).1

authorise-deactivate_example :
    authorise plain users verify 1000 signed_in (some "7") locked_out
    ≡ (err (unauthorized "Account is inactive or does not exist"), locked_out)
unfolding deactivate list_repository nat_eq string_eq
authorise-deactivate_example =
    authorise-deactivate plain users verify users-IsLawful 7 (ada ∷ []) locked_out
      (record ada { is_active = false }) 1000 signed_in "7"
      (record { sub = 7; email = ada.email; role = ada.role }) refl refl refl refl

abbrev after_login : List User
after_login = (login plain jwt users 1000 "" ada (ada ∷ [])).1

-- A notice of Paystack, signed as it may be.
abbrev notice : WebhooksController.Route
notice =
    WebhooksController.handle_paystack_webhook "signature" "{}"
      (record { event = "charge.success"; charge = record { reference = "ps_1"; amount = 500 } })

respond_webhooks_stranger_example :
    (respond services draws none (webhooks notice) (running opening)
      ≡ (err (unauthorized "Unauthorized"), running opening))
    × ((request : HttpRequest) (now : ℕ)
        → (catch request now (unauthorized "Unauthorized")).status_code ≡ 401)
respond_webhooks_stranger_example =
    respond_webhooks_stranger services draws notice (running opening)
