-- ===== src/Fees.antt =====
-- `FeesService`: the rules, their cache of five minutes, and the defaults.
-- Times are in milliseconds; a method is given the time at which it runs.
-- Source: src/fees/fees.service.ts.
pub mod Entity
pub mod Calculation
pub mod Selection
pub mod Bounds
pub mod Cache
pub mod Coherence
pub mod Defaults
pub mod Controller
use vault_api.Prelude.{
  ℕ, ◌+◌, ◌*◌, Bool, true, false, Option, none, some, List, [], ◌∷◌, ltb, length, ◌==◌, nat_eq,
  if◌then◌else◌,
}
use vault_api.Http.Action.{Result, ok, err, Action, ◌>>=◌, ◌>>◌, pure, gets, modify, attempt}
use vault_api.App.{App, on_db}
use vault_api.Orm.{Repository}
use vault_api.Transactions.Entity.{TransactionType, transfer, deposit, withdrawal}
use vault_api.Fees.Entity.{FeeConfig, percentage, flat, FeeStatus, active, inactive, fee_status_eq}
use vault_api.Fees.Calculation.{FeeCalculation, calculate_by, sort_by_priority}

abbrev pub cache_ttl_ms : ℕ
cache_ttl_ms = 5 * 60 * 1000

-- The three rules of `seedDefaults`, under the keys that the database gives them.
unfoldable pub default_rules : ℕ → ℕ → ℕ → List FeeConfig
default_rules i j k =
    record {
      id = i;
      name = "Standard Transfer Fee";
      transaction_type = transfer;
      fee_type = percentage;
      value = 15000;
      cap = 50000;
      minimum = 1000;
      min_transaction_amount = 0;
      max_transaction_amount = 0;
      status = active;
      priority = 1;
      description = some "1.5% of transfer amount, min ₦10, max ₦500";
    }
    ∷ record {
      id = j;
      name = "Withdrawal Fee";
      transaction_type = withdrawal;
      fee_type = flat;
      value = 25000000;
      cap = 0;
      minimum = 0;
      min_transaction_amount = 0;
      max_transaction_amount = 0;
      status = active;
      priority = 1;
      description = some "₦25 flat withdrawal fee";
    }
    ∷ record {
      id = k;
      name = "Free Deposit";
      transaction_type = deposit;
      fee_type = flat;
      value = 0;
      cap = 0;
      minimum = 0;
      min_transaction_amount = 0;
      max_transaction_amount = 0;
      status = active;
      priority = 1;
      description = some "No fee on deposits";
    }
    ∷ []

module _ {Db : Type 0} (fees : Repository FeeConfig Db) where
  -- `feeRepo.find({ where: { status: ACTIVE }, order: { priority: 'DESC' } })`
  unfoldable pub active_rules : Db → List FeeConfig
  active_rules db = sort_by_priority (fees.find (λ r. r.status == active) db)

  abbrev refill : ℕ → App Db → App Db
  refill now s = record s {
    fee_cache = some (active_rules s.db);
    fee_cache_expiry = now + cache_ttl_ms;
  }

  -- The cached rules while the cache is there and has not expired.
  abbrev pub cached : ℕ → App Db → Option (List FeeConfig)
  cached now s = if ltb now s.fee_cache_expiry then s.fee_cache else none

  unfoldable pub get_active_rules : ℕ → Action (App Db) (List FeeConfig)
  get_active_rules now s = elim (cached now s) [
    | some rules ↦ (ok rules, s)
    | none ↦ (ok (active_rules s.db), refill now s)
  ]

  unfoldable pub calculate : ℕ → TransactionType → ℕ → Action (App Db) FeeCalculation
  unfolding get_active_rules
  calculate now type amount_kobo = do
    rules ← get_active_rules now
    pure (calculate_by rules type amount_kobo)

  abbrev pub invalidate_cache : Action (App Db) (Unit {0})
  invalidate_cache s = (ok tt, record s { fee_cache = none; fee_cache_expiry = 0 })

  -- The request has no key, so what is saved is always a new row, under the key that it is given.
  unfoldable pub upsert : FeeConfig → Action (App Db) FeeConfig
  upsert config = do invalidate_cache; on_db (attempt (fees.save config)); pure config

  unfoldable pub deactivate : ℕ → Action (App Db) (Unit {0})
  deactivate id = do
    invalidate_cache
    on_db (modify (fees.update (λ r. r.id == id) (λ r. record r { status = inactive })))

  -- The order that the query asks for is left out.
  unfoldable pub find_all : Db → List FeeConfig
  find_all = fees.find (λ _. true)

  -- `feeRepo.save([…])`: all of the rows or none.
  unfoldable pub save_all : List FeeConfig → Db → Result Db
  save_all [] db = ok db
  save_all (r ∷ rules) db = elim (fees.save r db) [ ok db' ↦ save_all rules db' | err e ↦ err e ]

  -- The cache is left as it is.
  unfoldable pub seed_defaults : ℕ → ℕ → ℕ → Action (App Db) (Unit {0})
  unfolding save_all default_rules
  seed_defaults i j k = do
    existing ← gets (λ s. fees.find (λ _. true) s.db)
    if ltb 0 (length existing) then pure tt else on_db (attempt (save_all (default_rules i j k)))
