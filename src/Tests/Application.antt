-- ===== src/Tests/Application.antt =====
-- The whole application over tables kept as lists, with ada and an administrator signed up.
use vault_api.Prelude.{
  ℕ, ◌+◌, String, refl, List, [], ◌∷◌, Option, none, some, ◌==◌, string_eq, if◌then◌else◌, false,
}
use vault_api.Http.Action.{ok}
use vault_api.App.{App}
use vault_api.Orm.Lists.{list_repository, list_repository-IsLawful, list_repository-IsApart}
use vault_api.Accounts.Entity.{Account}
use vault_api.Transactions.Entity.{Transaction}
use vault_api.Transactions.{Tables}
use vault_api.Transactions.Lawful.{AreLawful}
use vault_api.Fees.Entity.{FeeConfig}
use vault_api.Users.Entity.{User, admin}
use vault_api.Wallets.Entity.{Wallet}
use vault_api.Kyc.Entity.{KycSubmission}
use vault_api.Beneficiaries.{Beneficiary}
use vault_api.Notifications.Entity.{Notification}
use vault_api.Auth.{Jwt, JwtPayload}
use vault_api.Audit.Queries.{StoredAudit}
use vault_api.Api.{Services}
use vault_api.Api.Effect.{AreWired}
use vault_api.Tests.PinTests.{plain, ada}
use vault_api.Tests.MoneyTests

pub record Store : Type 0 where
  pub account_rows : List Account
  pub transaction_rows : List Transaction
  pub fee_rows : List FeeConfig
  pub user_rows : List User
  pub wallet_rows : List Wallet
  pub submission_rows : List KycSubmission
  pub beneficiary_rows : List Beneficiary
  pub notification_rows : List Notification
  pub audit_rows : List StoredAudit

abbrev pub root : User
root = record ada { id = 1; email = "root@example.com"; role = admin }

abbrev pub opening : Store
opening = record {
  account_rows = MoneyTests.ada ∷ MoneyTests.ben ∷ [];
  transaction_rows = [];
  fee_rows = [];
  user_rows = ada ∷ root ∷ [];
  wallet_rows = [];
  submission_rows = [];
  beneficiary_rows = [];
  notification_rows = [];
  audit_rows = [];
}

abbrev pub running : Store → App Store
running db = record {
  db = db;
  fee_cache = none;
  fee_cache_expiry = 0;
  attempts = [];
  audit = [];
  events = [];
}

abbrev pub store_tables : Tables Store
store_tables = record {
  accounts =
      list_repository (λ a. a.id) (λ db. db.account_rows) (λ l db. record db { account_rows = l });
  transactions =
      list_repository (λ x. x.id) (λ db. db.transaction_rows)
        (λ l db. record db { transaction_rows = l });
  fees = list_repository (λ r. r.id) (λ db. db.fee_rows) (λ l db. record db { fee_rows = l });
  commit = ok;
}

-- The token "7" is ada's and "1" the administrator's.
abbrev pub verify : ℕ → String → Option JwtPayload
verify now token =
    if token == "7"
    then some (record { sub = 7; email = ada.email; role = ada.role })
    else if token == "1"
    then some (record { sub = 1; email = root.email; role = root.role })
    else none

abbrev pub jwt : Jwt
jwt = record { sign_access = λ now payload. "7"; sign_refresh = λ now payload. "r" }

abbrev pub services : Services Store
services = record {
  tables = store_tables;
  users = list_repository (λ u. u.id) (λ db. db.user_rows) (λ l db. record db { user_rows = l });
  wallets =
      list_repository (λ w. w.id) (λ db. db.wallet_rows) (λ l db. record db { wallet_rows = l });
  submissions =
      list_repository (λ k. k.id) (λ db. db.submission_rows)
        (λ l db. record db { submission_rows = l });
  beneficiaries =
      list_repository (λ b. b.id) (λ db. db.beneficiary_rows)
        (λ l db. record db { beneficiary_rows = l });
  notifications =
      list_repository (λ n. n.id) (λ db. db.notification_rows)
        (λ l db. record db { notification_rows = l });
  bcrypt = plain;
  jwt = jwt;
  verify = verify;
  show = λ n. "";
  is_uuid = λ key. false;
  providers = record {
    paystack_secret = none;
    flutterwave_secret = none;
    flutterwave_hash = none;
    hmac = λ secret body. body;
    paystack_answer = λ reference. none;
    flutterwave_answer = λ reference. none;
  };
  null_account = 0;
  newest_transactions = λ l. l;
  newest_notifications = λ l. l;
  oldest_transactions = λ l. l;
  texts = record {
    stamp = λ time. "";
    iso = λ time. "";
    day = λ time. "";
    show = λ n. "";
    show_signed = λ z. "";
    show_count = λ n. "";
    parse_float = λ text. 0;
    to_fixed = λ n. "";
  };
  date = λ text. none;
  end_of_day = λ day. day + 86399999;
  audits =
      list_repository (λ row. row.id) (λ db. db.audit_rows) (λ l db. record db { audit_rows = l });
  calendar = record {
    joined = λ u. 0;
    day = λ time. "2024-01-01";
    start_of_day = λ now. 0;
    start_of_month = λ now. 0;
    by_date = λ groups. groups;
    newest = λ rows. rows;
  };
  terminus = λ indicators db. ok "up";
}

pub store_tables-AreLawful : AreLawful store_tables
store_tables-AreLawful = record {
  accounts = list_repository-IsLawful _ _ _ (λ l db. refl);
  transactions = list_repository-IsLawful _ _ _ (λ l db. refl);
  accounts_apart = list_repository-IsApart _ _ _ _ _ _ (λ l db. refl);
  transactions_apart = list_repository-IsApart _ _ _ _ _ _ (λ l db. refl);
  commit-ok = λ db db' h. cc;
}

pub services-AreWired : AreWired services
services-AreWired = record {
  tables = store_tables-AreLawful;
  users_table = list_repository-IsLawful _ _ _ (λ l db. refl);
  users_apart = list_repository-IsApart _ _ _ _ _ _ (λ l db. refl);
  wallets_apart = list_repository-IsApart _ _ _ _ _ _ (λ l db. refl);
  submissions_apart = list_repository-IsApart _ _ _ _ _ _ (λ l db. refl);
  beneficiaries_apart = list_repository-IsApart _ _ _ _ _ _ (λ l db. refl);
  notifications_apart = list_repository-IsApart _ _ _ _ _ _ (λ l db. refl);
  fees_apart = list_repository-IsApart _ _ _ _ _ _ (λ l db. refl);
}
