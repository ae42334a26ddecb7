-- ===== src/Fees/Bounds.antt =====
-- How large a fee can be.
use vault_api.Prelude.{ℕ, ◌+◌, ◌*◌, ◌≤◌, ◌<◌, arith}
use vault_api.Fees.Entity.{FeeConfig}
use vault_api.Fees.Calculation.{kobo, percentage_of, raw_fee, with_floor, with_cap, rule_fee}

-- With a cap no fee exceeds it.
pub rule_fee-le-cap :
    (rule : FeeConfig) (amount_kobo : ℕ)
    → 0 < rule.cap
    → rule_fee rule amount_kobo ≤ rule.cap * kobo
unfolding rule_fee
rule_fee-le-cap rule amount_kobo capped = ground arith

-- With a minimum that the cap allows, no fee falls below it.
pub minimum-le-rule_fee :
    (rule : FeeConfig) (amount_kobo : ℕ)
    → (0 < rule.cap → rule.minimum ≤ rule.cap)
    → rule.minimum * kobo ≤ rule_fee rule amount_kobo
unfolding rule_fee
minimum-le-rule_fee rule amount_kobo allowed = ground arith

-- A percentage is rounded to the nearest kobo, halves up.
pub percentage_of_nearest :
    (amount_kobo value : ℕ)
    → let exact = amount_kobo * value in
      let rounded = percentage_of amount_kobo value * 1000000 in
      (2 * rounded ≤ 2 * exact + 1000000) × (2 * exact < 2 * rounded + 1000000)
unfolding percentage_of
percentage_of_nearest amount_kobo value = omega arith

mul_mono : (a b v : ℕ) → a ≤ b → a * v ≤ b * v
mul_mono a b v h = grind arith

percentage_of_mono : (a b v : ℕ) → a ≤ b → percentage_of a v ≤ percentage_of b v
unfolding percentage_of
percentage_of_mono a b v h = omega (arith, mul_mono a b v h)

raw_fee_mono : (rule : FeeConfig) (a b : ℕ) → a ≤ b → raw_fee rule a ≤ raw_fee rule b
unfolding raw_fee
raw_fee_mono rule a b h = ground (arith, percentage_of_mono a b rule.value h)

clamp_mono :
    (rule : FeeConfig) (x y : ℕ)
    → x ≤ y
    → with_cap rule (with_floor rule x) ≤ with_cap rule (with_floor rule y)
unfolding with_floor with_cap
clamp_mono rule x y h = ground arith

-- A larger amount never costs a smaller fee under one rule.
pub rule_fee_mono : (rule : FeeConfig) (a b : ℕ) → a ≤ b → rule_fee rule a ≤ rule_fee rule b
unfolding rule_fee
rule_fee_mono rule a b h =
    clamp_mono rule (raw_fee rule a) (raw_fee rule b) (raw_fee_mono rule a b h)
