-- ===== src/Api.antt =====
-- The whole application behind HTTP: a request names an endpoint and may carry a token; it passes the
-- guards, and its controller answers. The limits of the throttler, the validation of bodies and the
-- routing of paths to methods are the framework's.
-- Source: src/app.module.ts.
pub mod Codes
pub mod Limits
pub mod Exchange
pub mod Frame
pub mod Effect
pub mod Safety
pub mod Strangers
pub mod Absence
pub mod Owners
pub mod Wallets
use vault_api.Prelude.{ℕ, String, Bool, Option, List}
use vault_api.Http.Action.{Result, Action, ◌>>=◌, ◌>>◌}
use vault_api.App.{App, on_db}
use vault_api.Orm.{Repository}
use vault_api.Users.Hashing.{Bcrypt}
use vault_api.Users.Entity.{User}
use vault_api.Auth.{Jwt}
use vault_api.Auth.Guards.{Principal, Access, Verify, authorise}
use vault_api.Wallets.Entity.{Wallet}
use vault_api.Kyc.Entity.{KycSubmission}
use vault_api.Kyc.{KycTables}
use vault_api.Beneficiaries.{Beneficiary}
use vault_api.Notifications.Entity.{Notification}
use vault_api.Transactions.Entity.{Transaction}
use vault_api.Transactions.{Draw, Tables}
use vault_api.Webhooks.{Providers}
use vault_api.Statements.Rows.{Texts}
use vault_api.Audit.Queries.{StoredAudit}
use vault_api.Admin.Dashboard.{Calendar, ReportTables}
use vault_api.Admin.Controller as AdminController
use vault_api.Health as HealthController
use vault_api.Accounts.Controller as AccountsController
use vault_api.Auth.Controller as AuthController
use vault_api.Beneficiaries.Controller as BeneficiariesController
use vault_api.Fees.Controller as FeesController
use vault_api.Kyc.Controller as KycController
use vault_api.Notifications.Controller as NotificationsController
use vault_api.Statements as StatementsController
use vault_api.Transactions.Controller as TransactionsController
use vault_api.TransactionPin.Controller as TransactionPinController
use vault_api.Users.Controller as UsersController
use vault_api.Wallets.Controller as WalletsController
use vault_api.Webhooks.Controller as WebhooksController

-- What the modules are wired to: the tables, the packages and the providers.
pub record Services (Db : Type 0) : Type 0 where
  pub tables : Tables Db
  pub users : Repository User Db
  pub wallets : Repository Wallet Db
  pub submissions : Repository KycSubmission Db
  pub beneficiaries : Repository Beneficiary Db
  pub notifications : Repository Notification Db
  pub bcrypt : Bcrypt
  pub jwt : Jwt
  pub verify : Verify
  pub show : ℕ → String
  pub is_uuid : String → Bool
  pub providers : Providers
  pub null_account : ℕ
  pub newest_transactions : List Transaction → List Transaction
  pub newest_notifications : List Notification → List Notification
  pub oldest_transactions : List Transaction → List Transaction
  pub texts : Texts
  pub date : String → Option ℕ
  pub end_of_day : ℕ → ℕ
  pub audits : Repository StoredAudit Db
  pub calendar : Calendar
  pub terminus : List HealthController.Indicator → Db → Result String

-- What the environment draws for one request: two readings of the clock, the keys of new rows, the
-- numbers and the salts.
pub record Draws : Type 0 where
  pub now : ℕ
  pub later : ℕ
  pub id : ℕ
  pub second_id : ℕ
  pub third_id : ℕ
  pub reference : String
  pub account_number : String
  pub password_salt : String
  pub token_salt : String

pub data Endpoint : Type 0 where
  accounts : AccountsController.Route → Endpoint
  admin : AdminController.Route → Endpoint
  auth : AuthController.Route → Endpoint
  beneficiaries : BeneficiariesController.Route → Endpoint
  fees : FeesController.Route → Endpoint
  health : HealthController.Route → Endpoint
  kyc : KycController.Route → Endpoint
  notifications : NotificationsController.Route → Endpoint
  statements : StatementsController.Route → Endpoint
  transactions : TransactionsController.Route → Endpoint
  transaction_pin : TransactionPinController.Route → Endpoint
  users : UsersController.Route → Endpoint
  wallets : WalletsController.Route → Endpoint
  webhooks : WebhooksController.Route → Endpoint

unfoldable pub access : Endpoint → Access
access (accounts r) = AccountsController.access r
access (admin r) = AdminController.access r
access (auth r) = AuthController.access r
access (beneficiaries r) = BeneficiariesController.access r
access (fees r) = FeesController.access r
access (health r) = HealthController.access r
access (kyc r) = KycController.access r
access (notifications r) = NotificationsController.access r
access (statements r) = StatementsController.access r
access (transactions r) = TransactionsController.access r
access (transaction_pin r) = TransactionPinController.access r
access (users r) = UsersController.access r
access (wallets r) = WalletsController.access r
access (webhooks r) = WebhooksController.access r

abbrev pub Reply : Endpoint → Type 0
Reply (accounts r) = AccountsController.Reply r
Reply (admin r) = AdminController.Reply r
Reply (auth r) = AuthController.Reply r
Reply (beneficiaries r) = BeneficiariesController.Reply r
Reply (fees r) = FeesController.Reply r
Reply (health r) = HealthController.Reply r
Reply (kyc r) = KycController.Reply r
Reply (notifications r) = NotificationsController.Reply r
Reply (statements r) = StatementsController.Reply r
Reply (transactions r) = TransactionsController.Reply r
Reply (transaction_pin r) = TransactionPinController.Reply r
Reply (users r) = UsersController.Reply r
Reply (wallets r) = WalletsController.Reply r
Reply (webhooks r) = WebhooksController.Reply r

abbrev pub draw_of : Draws → Draw
draw_of d = record { now = d.now; id = d.id; reference = d.reference }

module _ {Db : Type 0} (svc : Services Db) where
  abbrev pub kyc_tables : KycTables Db
  kyc_tables = record {
    submissions = svc.submissions;
    users = svc.users;
    accounts = svc.tables.accounts;
    wallets = svc.wallets;
  }

  abbrev pub report_tables : ReportTables Db
  report_tables = record {
    users = svc.users;
    accounts = svc.tables.accounts;
    transactions = svc.tables.transactions;
    submissions = svc.submissions;
    audits = svc.audits;
  }

  -- What stands behind the guards.
  unfoldable pub handle : Draws → Option Principal → (e : Endpoint) → Action (App Db) (Reply e)
  handle d user (accounts r) =
      on_db (AccountsController.handle svc.tables.accounts d.id d.account_number user r)
  handle d user (admin r) = on_db (AdminController.handle report_tables svc.calendar d.now r)
  handle d user (auth r) = on_db (
      AuthController.handle svc.bcrypt svc.jwt svc.users d.now d.id d.password_salt d.token_salt
        user r)
  handle d user (beneficiaries r) =
      on_db (BeneficiariesController.handle svc.beneficiaries d.id user r)
  handle d user (fees r) = FeesController.handle svc.tables.fees d.id d.second_id d.third_id r
  handle d user (health r) = on_db (HealthController.handle svc.terminus d.now r)
  handle d user (kyc r) = KycController.handle kyc_tables d.now d.id user r
  handle d user (notifications r) =
      on_db (NotificationsController.handle svc.notifications svc.newest_notifications d.now user r)
  handle d user (statements r) = on_db (
      StatementsController.handle svc.tables svc.texts svc.oldest_transactions svc.date
        svc.end_of_day d.now user r)
  handle d user (transactions r) =
      TransactionsController.handle svc.tables svc.is_uuid svc.newest_transactions (draw_of d) user
        r
  handle d user (transaction_pin r) =
      TransactionPinController.handle svc.show svc.bcrypt svc.users d.now d.later d.token_salt user
        r
  handle d user (users r) = on_db (UsersController.handle svc.bcrypt svc.users user r)
  handle d user (wallets r) = on_db (WalletsController.handle svc.wallets r)
  handle d user (webhooks r) =
      WebhooksController.handle svc.tables svc.providers svc.null_account (draw_of d) r

  -- A request from its token to its answer.
  unfoldable pub respond : Draws → Option String → (e : Endpoint) → Action (App Db) (Reply e)
  respond d token e = do
    user ← on_db (authorise svc.bcrypt svc.users svc.verify d.now (access e) token)
    handle d user e
