-- ===== src/Fees/Calculation.antt =====
-- The arithmetic of `FeesService.calculate`, over the rules that `getActiveRules` returned.
-- JavaScript's numbers are taken as exact. A fee is in ten-thousandths of a kobo: `feeInKobo` and
-- `feeInMajor` are that amount in two units. The text `breakdown` is left out.
-- Source: src/fees/fees.service.ts.
use vault_api.Prelude.{
  ℕ, String, ◌+◌, ◌*◌, ◌/◌, Bool, ◌&&◌, ◌||◌, Option, none, some, List, [], ◌∷◌, max, min, ltb, leb,
  ◌==◌, nat_eq, if◌then◌else◌,
}
use vault_api.Transactions.Entity.{TransactionType, type_eq}
use vault_api.Fees.Entity.{FeeConfig, flat, active, fee_type_eq, fee_status_eq}

pub record FeeCalculation : Type 0 where
  pub fee : ℕ
  pub rule_applied : String

-- Ten-thousandths of a kobo in a kobo.
abbrev pub kobo : ℕ
kobo = 10000

-- The two filters.
unfoldable pub applies : TransactionType → ℕ → FeeConfig → Bool
applies type amount_kobo r =
    r.transaction_type == type
    && r.status == active
    && leb r.min_transaction_amount amount_kobo
    && (r.max_transaction_amount == 0 || leb amount_kobo r.max_transaction_amount)

unfoldable pub applicable : TransactionType → ℕ → List FeeConfig → List FeeConfig
unfolding applies
applicable type amount_kobo [] = []
applicable type amount_kobo (r ∷ rules) =
    if applies type amount_kobo r
    then r ∷ applicable type amount_kobo rules
    else applicable type amount_kobo rules

-- `.sort((a, b) => b.priority - a.priority)`, which keeps the order of rules of one priority.
unfoldable pub insert_by_priority : FeeConfig → List FeeConfig → List FeeConfig
insert_by_priority r [] = r ∷ []
insert_by_priority r (q ∷ rules) =
    if leb q.priority r.priority then r ∷ q ∷ rules else q ∷ insert_by_priority r rules

unfoldable pub sort_by_priority : List FeeConfig → List FeeConfig
unfolding insert_by_priority
sort_by_priority [] = []
sort_by_priority (r ∷ rules) = insert_by_priority r (sort_by_priority rules)

abbrev pub first : List FeeConfig → Option FeeConfig
first [] = none
first (r ∷ _) = some r

-- `applicable[0]`
unfoldable pub best_rule : TransactionType → ℕ → List FeeConfig → Option FeeConfig
unfolding applicable sort_by_priority
best_rule type amount_kobo rules = first (sort_by_priority (applicable type amount_kobo rules))

-- `Math.round((amountKobo * value) / 100)`: halves are rounded up.
unfoldable pub percentage_of : ℕ → ℕ → ℕ
percentage_of amount_kobo value = (2 * amount_kobo * value + 1000000) / 2000000

-- The fee before the floor and the cap. A `tiered` rule takes the branch of a percentage.
unfoldable pub raw_fee : FeeConfig → ℕ → ℕ
unfolding percentage_of
raw_fee rule amount_kobo =
    if rule.fee_type == flat then rule.value else percentage_of amount_kobo rule.value * kobo

unfoldable pub with_floor : FeeConfig → ℕ → ℕ
with_floor rule fee = if ltb 0 rule.minimum then max fee (rule.minimum * kobo) else fee

unfoldable pub with_cap : FeeConfig → ℕ → ℕ
with_cap rule fee = if ltb 0 rule.cap then min fee (rule.cap * kobo) else fee

unfoldable pub rule_fee : FeeConfig → ℕ → ℕ
unfolding raw_fee with_floor with_cap
rule_fee rule amount_kobo = with_cap rule (with_floor rule (raw_fee rule amount_kobo))

unfoldable pub calculate_by : List FeeConfig → TransactionType → ℕ → FeeCalculation
unfolding best_rule rule_fee
calculate_by rules type amount_kobo = elim (best_rule type amount_kobo rules) [
  | none ↦ record { fee = 0; rule_applied = "none" }
  | some rule ↦ record { fee = rule_fee rule amount_kobo; rule_applied = rule.name }
]
