-- ===== src/Tests/FeeTests.antt =====
-- The fee rules on concrete amounts.
use vault_api.Prelude.{◌≡◌, refl, some, List, [], ◌∷◌, nat_eq, arith}
use vault_api.Http.Action.{ok}
use vault_api.App.{App}
use vault_api.Transactions.Entity.{transfer, withdrawal, deposit, TransactionType-discrete}
use vault_api.Fees.Entity.{FeeConfig, percentage, active, FeeStatus-discrete}
use vault_api.Fees.Calculation.{best_rule, calculate_by}
use vault_api.Fees.{default_rules, calculate, seed_defaults, active_rules}
use vault_api.Fees.Defaults.{calculate_by-default_rules, calculate-seed_defaults_stale}
use vault_api.Fees.Coherence.{
  Call, calculation, deactivation, after_all, IsCoherent, calculate-after_all,
}
use vault_api.Tests.Database.{Memory, empty, app, tables}

abbrev standard : FeeConfig
standard = record {
  id = 1;
  name = "Standard Transfer Fee";
  transaction_type = transfer;
  fee_type = percentage;
  value = 15000;
  cap = 50000;
  minimum = 1000;
  min_transaction_amount = 0;
  max_transaction_amount = 0;
  status = active;
  priority = 1;
  description = some "1.5% of transfer amount, min ₦10, max ₦500";
}

chosen : best_rule transfer 500000 (default_rules 1 2 3) ≡ some standard
unfolding best_rule default_rules TransactionType-discrete FeeStatus-discrete nat_eq
chosen = refl

calculate_by-default_rules_example :
    ((calculate_by (default_rules 1 2 3) transfer 500000).fee ≡ 75000000)
    × ((calculate_by (default_rules 1 2 3) withdrawal 500000).fee ≡ 25000000)
    × ((calculate_by (default_rules 1 2 3) deposit 500000).fee ≡ 0)
calculate_by-default_rules_example = calculate_by-default_rules 1 2 3 500000

-- The rules have been read before they were seeded.
abbrev unseeded : App Memory
unseeded = record (app empty) { fee_cache = some []; fee_cache_expiry = 300000 }

calculate-seed_defaults_stale_example :
    (calculate tables.fees 1000 transfer 500000 ((seed_defaults tables.fees 1 2 3 unseeded).1)).0
    ≡ ok (record { fee = 0; rule_applied = "none" })
calculate-seed_defaults_stale_example =
    calculate-seed_defaults_stale tables.fees 1 2 3 1000 500000 unseeded refl

abbrev first_day : App Memory
first_day = app (record empty { fee_rows = default_rules 1 2 3 })

-- The rules are read into the cache, one of them is taken out, and the price is asked for again.
abbrev office_hours : List Call
office_hours = calculation 1000 transfer 500000 ∷ deactivation 1 ∷ []

first_day-IsCoherent : IsCoherent tables.fees first_day
first_day-IsCoherent rules h = absurd (ground arith)

calculate-after_all_example :
    let s = after_all tables.fees office_hours first_day in
    (calculate tables.fees 2000 transfer 500000 s).0
    ≡ ok (calculate_by (active_rules tables.fees s.db) transfer 500000)
calculate-after_all_example =
    calculate-after_all tables.fees office_hours first_day 2000 transfer 500000 first_day-IsCoherent
