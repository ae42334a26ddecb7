-- ===== src/Api/Wallets/Requests.antt =====
-- No request makes a wallet.
-- Source: src/app.module.ts, src/wallets/wallets.service.ts.
use vault_api.Prelude.{
  String, Option, none, some, List, [], ◌∷◌, ◌≡◌, ◌∙◌, arith, refl, inl, inr, nat_eq, Bool,
}
use vault_api.Http.Exception.{not_found}
use vault_api.Http.Action.{err, Result-cases}
use vault_api.App.{App}
use vault_api.Auth.Guards.{Principal, authorise}
use vault_api.Transactions.Idempotency.{can_activate}
use vault_api.Transactions.Controller as TransactionsController
use vault_api.Transactions.Queries.{find_all, find_by_account, find_by_reference}
use vault_api.Webhooks.Controller as WebhooksController
use vault_api.Webhooks.Charges.{process_paystack_webhook_idle, process_flutterwave_webhook_idle}
use vault_api.Wallets.Controller as WalletsController
use vault_api.Api.{
  Services, Draws, Endpoint, accounts, admin, auth, beneficiaries, fees, health, kyc, notifications,
  statements, transactions, transaction_pin, users, wallets, webhooks, access, draw_of,
  report_tables, handle, respond,
}
use vault_api.Api.Effect.{can_activate-db}
use vault_api.Api.Frame.Reports.{statements-SameRows, admin-SameRows, health-SameRows}
use vault_api.Api.Frame.People.{users-SameRows, auth-SameRows, transaction_pin-SameRows}
use vault_api.Api.Frame.Records.{beneficiaries-SameRows, notifications-SameRows, fees-SameRows}
use vault_api.Accounts.{find_one}
use vault_api.Api.Frame.Money.{accounts-SameRows, transfer-Same, deposit-Same, withdraw-Same}
use vault_api.Http.Request.{HttpRequest}
use vault_api.Config.{Limit}
use vault_api.Api.Safety.{Incoming, answer_all, respond-entered, respond-refused}
use vault_api.Api.Exchange.Safety.{Sent, exchange_all, admitted, exchange_all-answer_all}
use vault_api.Api.Wallets.{WalletsApart, NoWallets, wallets_refused, kyc-NoWallets}

module _ {Db : Type 0} (svc : Services Db) (W : WalletsApart svc) where
  transactions-NoWallets :
      (d : Draws) (user : Option Principal) (r : TransactionsController.Route) (s : App Db)
      → NoWallets svc s.db
      → NoWallets svc (handle svc d user (transactions r) s).1.db
  unfolding handle TransactionsController.handle find_one find_by_account find_by_reference find_all
  transactions-NoWallets d none (TransactionsController.transfer header dto) s empty j =
      grind (arith, can_activate-db svc d.now header s.db, empty j)
  transactions-NoWallets d (some p) (TransactionsController.transfer header dto) s empty j =
      elim (Result-cases (can_activate svc.tables svc.is_uuid d.now header s.db).0) [
        | inl (given, passed) ↦ ground (
          arith,
          can_activate-db svc d.now header s.db,
          transfer-Same (λ w. w.id) svc.wallets svc.tables W.accounts_apart W.transactions_apart
              W.commit-ok s.db (draw_of d) p.id dto given s (λ i. refl) j,
          empty j,
        )
        | inr (e, refused) ↦ ground (arith, can_activate-db svc d.now header s.db, empty j)
      ]
  transactions-NoWallets d user (TransactionsController.deposit dto) s empty j =
      deposit-Same (λ w. w.id) svc.wallets svc.tables W.accounts_apart W.transactions_apart
        W.commit-ok s.db (draw_of d) dto s (λ i. refl) j
      ∙ empty j
  transactions-NoWallets d none (TransactionsController.withdraw header dto) s empty j =
      grind (arith, can_activate-db svc d.now header s.db, empty j)
  transactions-NoWallets d (some p) (TransactionsController.withdraw header dto) s empty j =
      elim (Result-cases (can_activate svc.tables svc.is_uuid d.now header s.db).0) [
        | inl (given, passed) ↦ ground (
          arith,
          can_activate-db svc d.now header s.db,
          withdraw-Same (λ w. w.id) svc.wallets svc.tables W.accounts_apart W.transactions_apart
              W.commit-ok s.db (draw_of d) p.id dto given s (λ i. refl) j,
          empty j,
        )
        | inr (e, refused) ↦ ground (arith, can_activate-db svc d.now header s.db, empty j)
      ]
  transactions-NoWallets d none (TransactionsController.get_by_account account_id page limit) s
        empty j =
      empty j
  transactions-NoWallets d (some p) (TransactionsController.get_by_account account_id page limit) s
        empty j =
      grind (arith, empty j)
  transactions-NoWallets d user (TransactionsController.get_by_reference reference) s empty j =
      ground (arith, empty j)
  transactions-NoWallets d user (TransactionsController.find_all page limit) s empty j =
      ground (arith, empty j)

  webhooks-NoWallets :
      (d : Draws) (user : Option Principal) (r : WebhooksController.Route) (s : App Db)
      → NoWallets svc s.db
      → NoWallets svc (handle svc d user (webhooks r) s).1.db
  unfolding handle WebhooksController.handle
  webhooks-NoWallets d user (WebhooksController.handle_paystack_webhook signature raw_body body) s
        empty j =
      let idle =
        process_paystack_webhook_idle svc.tables svc.providers svc.null_account (draw_of d) s
          signature raw_body body in
      ground (arith, idle, empty j)
  webhooks-NoWallets d user (WebhooksController.handle_flutterwave_webhook hash body) s empty j =
      let idle =
        process_flutterwave_webhook_idle svc.tables svc.providers svc.null_account (draw_of d) s
          hash body in
      ground (arith, idle, empty j)

  handle-NoWallets :
      (d : Draws) (user : Option Principal) (e : Endpoint) (s : App Db)
      → NoWallets svc s.db
      → NoWallets svc (handle svc d user e s).1.db
  unfolding handle
  handle-NoWallets d user (accounts r) s empty j =
      accounts-SameRows (λ w. w.id) svc.wallets svc.tables.accounts W.accounts_apart d.id
        d.account_number user r s.db j
      ∙ empty j
  handle-NoWallets d user (admin r) s empty j =
      admin-SameRows (λ w. w.id) svc.wallets (report_tables svc) svc.calendar d.now r s.db j
      ∙ empty j
  handle-NoWallets d user (auth r) s empty j =
      auth-SameRows svc.bcrypt svc.users (λ w. w.id) svc.wallets W.users_apart svc.jwt d.now d.id
        d.password_salt d.token_salt user r s.db j
      ∙ empty j
  handle-NoWallets d user (beneficiaries r) s empty j =
      beneficiaries-SameRows (λ w. w.id) svc.wallets svc.beneficiaries W.beneficiaries_apart d.id
        user r s.db j
      ∙ empty j
  handle-NoWallets d user (fees r) s empty j =
      fees-SameRows (λ w. w.id) svc.wallets svc.tables.fees W.fees_apart d.id d.second_id d.third_id
        r s j
      ∙ empty j
  handle-NoWallets d user (health r) s empty j =
      health-SameRows (λ w. w.id) svc.wallets svc.terminus d.now r s.db j ∙ empty j
  handle-NoWallets d user (kyc r) s empty j = kyc-NoWallets svc W d.now d.id user r s empty j
  handle-NoWallets d user (notifications r) s empty j =
      notifications-SameRows (λ w. w.id) svc.wallets svc.notifications W.notifications_apart
        svc.newest_notifications d.now user r s.db j
      ∙ empty j
  handle-NoWallets d user (statements r) s empty j =
      statements-SameRows (λ w. w.id) svc.wallets svc.tables svc.texts svc.oldest_transactions
        svc.date svc.end_of_day d.now user r s.db j
      ∙ empty j
  handle-NoWallets d user (transactions r) s empty j = transactions-NoWallets d user r s empty j
  handle-NoWallets d user (transaction_pin r) s empty j =
      transaction_pin-SameRows svc.bcrypt svc.users (λ w. w.id) svc.wallets W.users_apart svc.show
        d.now d.later d.token_salt user r s j
      ∙ empty j
  handle-NoWallets d user (users r) s empty j =
      users-SameRows svc.bcrypt svc.users (λ w. w.id) svc.wallets W.users_apart user r s.db j
      ∙ empty j
  handle-NoWallets d user (wallets r) s empty j =
      ground (arith, wallets_refused svc W r s.db empty, empty j)
  handle-NoWallets d user (webhooks r) s empty j = webhooks-NoWallets d user r s empty j

  respond-NoWallets :
      (d : Draws) (token : Option String) (e : Endpoint) (s : App Db)
      → NoWallets svc s.db
      → NoWallets svc (respond svc d token e s).1.db
  respond-NoWallets d token e s empty =
      elim (Result-cases
        (authorise svc.bcrypt svc.users svc.verify d.now (access e) token s.db).0) [
          | inl (p, entered) ↦
              rw (respond-entered svc d token e s p entered) (handle-NoWallets d p e s empty)
          | inr (x, refused) ↦ rw (respond-refused svc d token e s x refused) empty
        ]

  answer_all-NoWallets :
      (requests : List Incoming) (s : App Db)
      → NoWallets svc s.db
      → NoWallets svc (answer_all svc requests s).db
  answer_all-NoWallets [] s empty = empty
  answer_all-NoWallets (r ∷ requests) s empty =
      answer_all-NoWallets requests (respond svc r.draws r.token r.endpoint s).1
        (respond-NoWallets r.draws r.token r.endpoint s empty)

  -- An application that starts without wallets never has one: whatever requests arrive over HTTP, there
  -- is none afterwards, and every request to the wallets' controller is then answered with "Wallet not
  -- found for this account" and changes nothing.
  pub exchange_all-NoWallets :
      (within : Limit → HttpRequest → Bool) (configured : Limit) (requests : List Sent) (s : App Db)
      → NoWallets svc s.db
      → NoWallets svc (exchange_all svc within configured requests s).db
        × ((r : WalletsController.Route)
            → let db : Db = (exchange_all svc within configured requests s).db in
              WalletsController.handle svc.wallets r db
              ≡ (err (not_found "Wallet not found for this account"), db))
  exchange_all-NoWallets within configured requests s empty =
      let none_left : NoWallets svc (exchange_all svc within configured requests s).db =
        rw (exchange_all-answer_all svc within configured requests s)
          (answer_all-NoWallets (admitted svc within configured requests) s empty) in
      (
        none_left,
        λ r. wallets_refused svc W r (exchange_all svc within configured requests s).db none_left,
      )
