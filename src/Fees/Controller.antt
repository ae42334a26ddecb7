-- ===== src/Fees/Controller.antt =====
-- `FeesController`, all of it for administrators. The keys of new rows are arguments.
-- Source: src/fees/fees.controller.ts.
use vault_api.Prelude.{ℕ, String, Option, some, none, List, [], ◌∷◌}
use vault_api.Http.Action.{Action, gets}
use vault_api.App.{App, on_db}
use vault_api.Orm.{Repository}
use vault_api.Users.Entity.{admin}
use vault_api.Auth.Guards.{Access, for_roles}
use vault_api.Transactions.Entity.{TransactionType}
use vault_api.Fees.Entity.{FeeConfig, FeeType, active}

-- The optional numbers are not negative here. The code does not check that: only `value` has `@Min(0)`.
pub record UpsertFeeConfigDto : Type 0 where
  pub name : String
  pub transaction_type : TransactionType
  pub fee_type : FeeType
  pub value : ℕ
  pub cap : Option ℕ
  pub minimum : Option ℕ
  pub min_transaction_amount : Option ℕ
  pub max_transaction_amount : Option ℕ
  pub priority : Option ℕ
  pub description : Option String

-- The default of a column is 0.
abbrev or_zero : Option ℕ → ℕ
or_zero none = 0
or_zero (some n) = n

-- `feeRepo.create(dto)`
abbrev pub config_of : ℕ → UpsertFeeConfigDto → FeeConfig
config_of id dto = record {
  id = id;
  name = dto.name;
  transaction_type = dto.transaction_type;
  fee_type = dto.fee_type;
  value = dto.value;
  cap = or_zero dto.cap;
  minimum = or_zero dto.minimum;
  min_transaction_amount = or_zero dto.min_transaction_amount;
  max_transaction_amount = or_zero dto.max_transaction_amount;
  status = active;
  priority = or_zero dto.priority;
  description = dto.description;
}

pub data Route : Type 0 where
  find_all : Route
  upsert : UpsertFeeConfigDto → Route
  deactivate : ℕ → Route
  seed : Route

unfoldable pub access : Route → Access
access _ = for_roles (admin ∷ [])

abbrev pub Reply : Route → Type 0
Reply find_all = List FeeConfig
Reply (upsert dto) = FeeConfig
Reply _ = Unit {0}

module _ {Db : Type 0} (fees : Repository FeeConfig Db) where
  unfoldable pub handle : ℕ → ℕ → ℕ → (route : Route) → Action (App Db) (Reply route)
  handle i j k find_all = on_db (gets (vault_api.Fees.find_all fees))
  handle i j k (upsert dto) = vault_api.Fees.upsert fees (config_of i dto)
  handle i j k (deactivate id) = vault_api.Fees.deactivate fees id
  handle i j k seed = vault_api.Fees.seed_defaults fees i j k
