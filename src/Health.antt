-- ===== src/Health.antt =====
-- `HealthController`. `check` is the service of @nestjs/terminus: the report of the indicators, or the
-- exception that one of them is down.
-- Source: src/health/health.controller.ts.
use vault_api.Prelude.{ℕ, ◌*◌, String, List, [], ◌∷◌}
use vault_api.Http.Action.{Result, Action, ok}
use vault_api.Auth.Guards.{Access, open_to_all}

-- A storage check has its threshold in percent.
pub data Indicator : Type 0 where
  ping_check : String → Indicator
  check_heap : String → ℕ → Indicator
  check_rss : String → ℕ → Indicator
  check_storage : String → ℕ → String → Indicator

abbrev pub indicators : List Indicator
indicators =
    ping_check "database"
    ∷ check_heap "memory_heap" (300 * 1024 * 1024)
    ∷ check_rss "memory_rss" (500 * 1024 * 1024)
    ∷ check_storage "disk" 90 "/"
    ∷ []

pub record Liveness : Type 0 where
  pub status : String
  pub timestamp : ℕ

pub data Route : Type 0 where
  check : Route
  ping : Route

unfoldable pub access : Route → Access
access _ = open_to_all

abbrev pub Reply : Route → Type 0
Reply check = String
Reply ping = Liveness

module _ {Db : Type 0} (terminus : List Indicator → Db → Result String) where
  unfoldable pub handle : ℕ → (route : Route) → Action Db (Reply route)
  handle now check db = (terminus indicators db, db)
  handle now ping db = (ok (record { status = "ok"; timestamp = now }), db)
