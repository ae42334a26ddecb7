-- ===== src/Admin/Controller.antt =====
-- `AdminController`. A number of days is taken to be 0 or more; without one it is 30.
-- Source: src/admin/admin.controller.ts.
use vault_api.Prelude.{ℕ, String, Option, none, some, List, [], ◌∷◌}
use vault_api.Http.Action.{Action, gets}
use vault_api.Users.Entity.{admin}
use vault_api.Auth.Guards.{Access, for_roles}
use vault_api.Admin.Dashboard.{
  Calendar, Group, ReportTables, DashboardStats, get_dashboard_stats, get_user_growth,
}

pub data Route : Type 0 where
  dashboard_stats : Route
  user_growth : Option ℕ → Route

unfoldable pub access : Route → Access
access _ = for_roles (admin ∷ [])

abbrev pub Reply : Route → Type 0
Reply dashboard_stats = DashboardStats
Reply (user_growth days) = List (Group String)

module _ {Db : Type 0} (t : ReportTables Db) (calendar : Calendar) where
  unfoldable pub handle : ℕ → (route : Route) → Action Db (Reply route)
  handle now dashboard_stats = gets (get_dashboard_stats t calendar now)
  handle now (user_growth none) = gets (get_user_growth t calendar now 30)
  handle now (user_growth (some days)) = gets (get_user_growth t calendar now days)
