-- ===== src/Api/Effect.antt =====
-- What a request may do to the accounts: nothing, one call of the account service, or one transaction
-- asked for by the user that the guards have let in.
use vault_api.Prelude.{ℕ, String, Option, some, none, arith, ◌≡◌, refl, inl, inr}
use vault_api.Http.Action.{ok, err, Result-cases}
use vault_api.App.{App}
use vault_api.Orm.{IsLawful, IsApart}
use vault_api.Accounts.Entity.{Account}
use vault_api.Http.Exception.{Exception}
use vault_api.Accounts.{find_one, CreateAccountDto, create, freeze, unfreeze}
use vault_api.Accounts.Controller as AccountsController
use vault_api.Auth.Guards.{Principal}
use vault_api.Transactions.Lawful.{AreLawful}
use vault_api.Transactions.Idempotency.{can_activate}
use vault_api.Api.Frame.Reports.{statements-SameRows, admin-SameRows, health-SameRows}
use vault_api.Transactions.Controller as TransactionsController
use vault_api.Transactions.Queries.{find_all, find_by_account, find_by_reference}
use vault_api.Transactions.Ledger.{
  Request, transfer_request, deposit_request, withdraw_request, serve,
}
use vault_api.Webhooks.Controller as WebhooksController
use vault_api.Webhooks.Charges.{process_paystack_webhook_idle, process_flutterwave_webhook_idle}
use vault_api.Api.{
  Services, Draws, Endpoint, accounts, admin, auth, beneficiaries, fees, health, kyc, notifications,
  statements, transactions, transaction_pin, users, wallets, webhooks, draw_of, kyc_tables,
  report_tables, handle,
}
use vault_api.Api.Frame.{SameAccounts}
use vault_api.Api.Frame.People.{users-SameRows, auth-SameRows, transaction_pin-SameRows}
use vault_api.Api.Frame.Records.{
  beneficiaries-SameRows, notifications-SameRows, wallets-SameRows, fees-SameRows, kyc-SameAccounts,
}

-- The promises of the tables: the accounts' and the transactions' own, and that a write to any other
-- table leaves the accounts alone.
pub record AreWired {Db : Type 0} (svc : Services Db) : Type 0 where
  pub tables : AreLawful svc.tables
  pub users_table : IsLawful (λ u. u.id) svc.users
  pub users_apart : IsApart svc.users svc.tables.accounts
  pub wallets_apart : IsApart svc.wallets svc.tables.accounts
  pub submissions_apart : IsApart svc.submissions svc.tables.accounts
  pub beneficiaries_apart : IsApart svc.beneficiaries svc.tables.accounts
  pub notifications_apart : IsApart svc.notifications svc.tables.accounts
  pub fees_apart : IsApart svc.tables.fees svc.tables.accounts

-- The user of the request is the one that the transaction is made for; a deposit is for nobody.
abbrev pub IsFor : Option Principal → Request → Type 0
IsFor user (transfer_request _ u _ _) = (p : Principal) × (user ≡ some p) × (p.id ≡ u)
IsFor user (deposit_request _ _) = Unit {0}
IsFor user (withdraw_request _ u _ _) = (p : Principal) × (user ≡ some p) × (p.id ≡ u)

module _ {Db : Type 0} (svc : Services Db) where
  pub data Effect (d : Draws) (user : Option Principal) (s s' : App Db) : Type 0 where
    untouched : SameAccounts svc.tables.accounts s.db s'.db → Effect d user s s'
    account_opened :
        (u : ℕ) (dto : CreateAccountDto) (a : Account)
        → create svc.tables.accounts d.id d.account_number u dto s.db ≡ (ok a, s'.db)
        → Effect d user s s'
    account_frozen :
        (i u : ℕ) (a : Account)
        → freeze svc.tables.accounts i u s.db ≡ (ok a, s'.db)
        → Effect d user s s'
    account_unfrozen :
        (i : ℕ) (a : Account)
        → unfreeze svc.tables.accounts i s.db ≡ (ok a, s'.db)
        → Effect d user s s'
    served : (r : Request) → IsFor user r → s'.db ≡ (serve svc.tables r s).db → Effect d user s s'

  -- A call of the account service that throws has written nothing.
  create-err :
      (id u : ℕ) (number : String) (dto : CreateAccountDto) (db : Db) (e : Exception)
      → (create svc.tables.accounts id number u dto db).0 ≡ err e
      → (create svc.tables.accounts id number u dto db).1 ≡ db
  unfolding create
  create-err id u number dto db e h = ground arith

  freeze-err :
      (i u : ℕ) (db : Db) (e : Exception)
      → (freeze svc.tables.accounts i u db).0 ≡ err e
      → (freeze svc.tables.accounts i u db).1 ≡ db
  unfolding freeze
  freeze-err i u db e h = ground arith

  unfreeze-err :
      (i : ℕ) (db : Db) (e : Exception)
      → (unfreeze svc.tables.accounts i db).0 ≡ err e
      → (unfreeze svc.tables.accounts i db).1 ≡ db
  unfolding unfreeze
  unfreeze-err i db e h = ground arith

  pub can_activate-db :
      (now : ℕ) (header : Option String) (db : Db)
      → (can_activate svc.tables svc.is_uuid now header db).1 ≡ db
  unfolding can_activate
  can_activate-db now header db = ground arith

  module _ (W : AreWired svc) (d : Draws) where
    accounts-Effect :
        (user : Option Principal) (r : AccountsController.Route) (s : App Db)
        → Effect d user s (handle svc d user (accounts r) s).1
    unfolding handle AccountsController.handle find_one
    accounts-Effect none (AccountsController.create dto) s = untouched λ j. refl
    accounts-Effect (some p) (AccountsController.create dto) s =
        elim (Result-cases (create svc.tables.accounts d.id d.account_number p.id dto s.db).0) [
          | inl (a, made) ↦ account_opened p.id dto a (ground arith)
          | inr (e, refused) ↦
              untouched
                λ j. ground (arith, create-err d.id p.id d.account_number dto s.db e refused)
        ]
    accounts-Effect none AccountsController.find_my_accounts s = untouched λ j. refl
    accounts-Effect (some p) AccountsController.find_my_accounts s = untouched λ j. refl
    accounts-Effect none (AccountsController.find_one id) s = untouched λ j. refl
    accounts-Effect (some p) (AccountsController.find_one id) s = untouched λ j. ground arith
    accounts-Effect none (AccountsController.freeze id) s = untouched λ j. refl
    accounts-Effect (some p) (AccountsController.freeze id) s =
        elim (Result-cases (freeze svc.tables.accounts id p.id s.db).0) [
          | inl (a, made) ↦ account_frozen id p.id a (ground arith)
          | inr (e, refused) ↦ untouched λ j. ground (arith, freeze-err id p.id s.db e refused)
        ]
    accounts-Effect user (AccountsController.unfreeze id) s =
        elim (Result-cases (unfreeze svc.tables.accounts id s.db).0) [
          | inl (a, made) ↦ account_unfrozen id a (ground arith)
          | inr (e, refused) ↦ untouched λ j. ground (arith, unfreeze-err id s.db e refused)
        ]

    transactions-Effect :
        (user : Option Principal) (r : TransactionsController.Route) (s : App Db)
        → Effect d user s (handle svc d user (transactions r) s).1
    unfolding handle TransactionsController.handle find_one find_by_account find_by_reference
        find_all
    transactions-Effect none (TransactionsController.transfer header dto) s =
        untouched λ j. grind (arith, can_activate-db d.now header s.db)
    transactions-Effect (some p) (TransactionsController.transfer header dto) s =
        elim (Result-cases (can_activate svc.tables svc.is_uuid d.now header s.db).0) [
          | inl (key, passed) ↦
              served (transfer_request (draw_of d) p.id dto key) (p, refl, refl)
                (ground (arith, can_activate-db d.now header s.db))
          | inr (e, refused) ↦ untouched λ j. ground (arith, can_activate-db d.now header s.db)
        ]
    transactions-Effect user (TransactionsController.deposit dto) s =
        served (deposit_request (draw_of d) dto) tt refl
    transactions-Effect none (TransactionsController.withdraw header dto) s =
        untouched λ j. grind (arith, can_activate-db d.now header s.db)
    transactions-Effect (some p) (TransactionsController.withdraw header dto) s =
        elim (Result-cases (can_activate svc.tables svc.is_uuid d.now header s.db).0) [
          | inl (key, passed) ↦
              served (withdraw_request (draw_of d) p.id dto key) (p, refl, refl)
                (ground (arith, can_activate-db d.now header s.db))
          | inr (e, refused) ↦ untouched λ j. ground (arith, can_activate-db d.now header s.db)
        ]
    transactions-Effect none (TransactionsController.get_by_account account_id page limit) s =
        untouched λ j. refl
    transactions-Effect (some p) (TransactionsController.get_by_account account_id page limit) s =
        untouched λ j. grind (arith)
    transactions-Effect user (TransactionsController.get_by_reference reference) s =
        untouched λ j. ground arith
    transactions-Effect user (TransactionsController.find_all page limit) s =
        untouched λ j. ground arith

    webhooks-Effect :
        (user : Option Principal) (r : WebhooksController.Route) (s : App Db)
        → Effect d user s (handle svc d user (webhooks r) s).1
    unfolding handle WebhooksController.handle
    webhooks-Effect user (WebhooksController.handle_paystack_webhook signature raw_body body) s =
        let idle =
          process_paystack_webhook_idle svc.tables svc.providers svc.null_account (draw_of d) s
            signature raw_body body in
        untouched λ j. ground (arith, idle)
    webhooks-Effect user (WebhooksController.handle_flutterwave_webhook hash body) s =
        let idle =
          process_flutterwave_webhook_idle svc.tables svc.providers svc.null_account (draw_of d) s
            hash body in
        untouched λ j. ground (arith, idle)

    pub handle-Effect :
        (user : Option Principal) (e : Endpoint) (s : App Db)
        → Effect d user s (handle svc d user e s).1
    unfolding handle
    handle-Effect user (accounts r) s = accounts-Effect user r s
    handle-Effect user (admin r) s = untouched (
        admin-SameRows (λ a. a.id) svc.tables.accounts (report_tables svc) svc.calendar d.now r
          s.db)
    handle-Effect user (auth r) s = untouched (
        auth-SameRows svc.bcrypt svc.users (λ a. a.id) svc.tables.accounts W.users_apart svc.jwt
          d.now d.id d.password_salt d.token_salt user r s.db)
    handle-Effect user (beneficiaries r) s = untouched (
        beneficiaries-SameRows (λ a. a.id) svc.tables.accounts svc.beneficiaries
          W.beneficiaries_apart d.id user r s.db)
    handle-Effect user (fees r) s = untouched (
        fees-SameRows (λ a. a.id) svc.tables.accounts svc.tables.fees W.fees_apart d.id d.second_id
          d.third_id r s)
    handle-Effect user (health r) s =
        untouched (health-SameRows (λ a. a.id) svc.tables.accounts svc.terminus d.now r s.db)
    handle-Effect user (kyc r) s = untouched (
        kyc-SameAccounts (kyc_tables svc) W.users_apart W.wallets_apart W.submissions_apart d.now
          d.id user r s)
    handle-Effect user (notifications r) s = untouched (
        notifications-SameRows (λ a. a.id) svc.tables.accounts svc.notifications
          W.notifications_apart svc.newest_notifications d.now user r s.db)
    handle-Effect user (statements r) s = untouched (
        statements-SameRows (λ a. a.id) svc.tables.accounts svc.tables svc.texts
          svc.oldest_transactions svc.date svc.end_of_day d.now user r s.db)
    handle-Effect user (transactions r) s = transactions-Effect user r s
    handle-Effect user (transaction_pin r) s = untouched (
        transaction_pin-SameRows svc.bcrypt svc.users (λ a. a.id) svc.tables.accounts W.users_apart
          svc.show d.now d.later d.token_salt user r s)
    handle-Effect user (users r) s = untouched (
        users-SameRows svc.bcrypt svc.users (λ a. a.id) svc.tables.accounts W.users_apart user r
          s.db)
    handle-Effect user (wallets r) s =
        untouched
          (wallets-SameRows (λ a. a.id) svc.tables.accounts svc.wallets W.wallets_apart r s.db)
    handle-Effect user (webhooks r) s = webhooks-Effect user r s
