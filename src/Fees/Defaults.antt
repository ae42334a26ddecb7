-- ===== src/Fees/Defaults.antt =====
-- The fees under the seeded rules, and the seeding itself.
use vault_api.Prelude.{ℕ, ◌+◌, ◌*◌, ◌/◌, ◌≡◌, arith, some, [], max, min, nat_eq}
use vault_api.Http.Action.{ok}
use vault_api.App.{App}
use vault_api.Orm.{Repository}
use vault_api.Transactions.Entity.{transfer, deposit, withdrawal, TransactionType-discrete}
use vault_api.Fees.Entity.{FeeConfig, FeeType-discrete, FeeStatus-discrete}
use vault_api.Fees.Calculation.{kobo, calculate_by}
use vault_api.Fees.{default_rules, calculate, seed_defaults, cached}

-- Under the default rules a transfer costs 1.5 per cent, rounded to the kobo, but at least 10 naira
-- and at most 500; a withdrawal is priced at 25 naira, and a deposit is free.
pub calculate_by-default_rules :
    (i j k amount : ℕ)
    → ((calculate_by (default_rules i j k) transfer amount).fee
        ≡ min (max ((3 * amount + 100) / 200 * kobo) (1000 * kobo)) (50000 * kobo))
      × ((calculate_by (default_rules i j k) withdrawal amount).fee ≡ 2500 * kobo)
      × ((calculate_by (default_rules i j k) deposit amount).fee ≡ 0)
unfolding calculate_by default_rules TransactionType-discrete FeeType-discrete FeeStatus-discrete
    nat_eq
calculate_by-default_rules i j k amount = (ground arith, ground arith, ground arith)

-- Seeding does not clear the cache: an empty list that was cached before stays in force until it
-- expires, and transfers are free until then.
pub calculate-seed_defaults_stale :
    {Db : Type 0} (fees : Repository FeeConfig Db) (i j k now amount : ℕ) (s : App Db)
    → cached fees now s ≡ some []
    → (calculate fees now transfer amount ((seed_defaults fees i j k s).1)).0
      ≡ ok (record { fee = 0; rule_applied = "none" })
unfolding calculate seed_defaults calculate_by
calculate-seed_defaults_stale fees i j k now amount s h = ground arith
