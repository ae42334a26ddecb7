-- ===== src/Api/Frame/Reports.antt =====
-- Statements, the dashboard and the health checks.
use vault_api.Prelude.{ℕ, String, Option, List, arith, refl}
use vault_api.Http.Action.{Result}
use vault_api.Orm.{Repository}
use vault_api.Transactions.{Tables}
use vault_api.Transactions.Entity.{Transaction}
use vault_api.Auth.Guards.{Principal}
use vault_api.Statements.Rows.{Texts}
use vault_api.Statements as StatementsController
use vault_api.Admin.Dashboard.{Calendar, ReportTables}
use vault_api.Admin.Controller as AdminController
use vault_api.Health as HealthController
use vault_api.Api.Frame.{SameRows}

module _ {Db : Type 0} where
  module _ {F : Type 0} (key : F → ℕ) (others : Repository F Db) where
    pub admin-SameRows :
        (t : ReportTables Db) (calendar : Calendar) (now : ℕ) (r : AdminController.Route) (db : Db)
        → SameRows key others db (AdminController.handle t calendar now r db).1
    unfolding AdminController.handle
    admin-SameRows t calendar now AdminController.dashboard_stats db j = refl
    admin-SameRows t calendar now (AdminController.user_growth days) db j = ground arith

    pub health-SameRows :
        (terminus : List HealthController.Indicator → Db → Result String) (now : ℕ)
        (r : HealthController.Route) (db : Db)
        → SameRows key others db (HealthController.handle terminus now r db).1
    unfolding HealthController.handle
    health-SameRows terminus now HealthController.check db j = refl
    health-SameRows terminus now HealthController.ping db j = refl

    pub statements-SameRows :
        (t : Tables Db) (texts : Texts) (sorted : List Transaction → List Transaction)
        (date : String → Option ℕ) (end_of_day : ℕ → ℕ) (now : ℕ) (user : Option Principal)
        (r : StatementsController.Route) (db : Db)
        → SameRows key others db
            (StatementsController.handle t texts sorted date end_of_day now user r db).1
    unfolding StatementsController.handle StatementsController.download_csv
        StatementsController.generate_csv
    statements-SameRows t texts sorted date end_of_day now user
          (StatementsController.download account_id from_str to_str) db j =
        ground arith
