-- ===== src/Wallets.antt =====
-- `WalletsService`. The calendar is a parameter: `next_month now` is the start of the month after,
-- `new Date(now.getFullYear(), now.getMonth() + 1, 1)`; so is `naira`, the text of an amount in kobo
-- as naira. What `getLimits` divides by a hundred is kept in kobo.
-- Source: src/wallets/wallets.service.ts.
pub mod Entity
pub mod Spending
pub mod Tiers
pub mod Controller
use vault_api.Prelude.{
  ℕ, String, ◌+◌, ◌<>◌, Bool, true, false, Option, none, some, ltb, ◌==◌, nat_eq, if◌then◌else◌,
}
use vault_api.Prelude.Int.{ℤ, pos, ◌-ℤ◌}
use vault_api.Http.Exception.{not_found, bad_request}
use vault_api.Http.Action.{
  Result, Action, ◌>>=◌, ◌>>◌, pure, throw_if, or_throw, gets, modify, attempt,
}
use vault_api.Orm.{Repository}
use vault_api.Wallets.Entity.{Wallet, WalletTier, basic, standard, premium}

pub record Limits : Type 0 where
  pub daily : ℕ
  pub single : ℕ
  pub monthly : ℕ

-- `TIER_LIMITS`
unfoldable pub tier_limits : WalletTier → Limits
tier_limits basic = record { daily = 10000000; single = 5000000; monthly = 50000000 }
tier_limits standard = record { daily = 50000000; single = 20000000; monthly = 200000000 }
tier_limits premium = record { daily = 500000000; single = 200000000; monthly = 2000000000 }

-- What `getLimits` answers.
pub record LimitsView : Type 0 where
  pub tier : WalletTier
  pub limits : Limits
  pub monthly_spend : ℕ
  pub monthly_remaining : ℤ

-- The columns that are not given take their defaults.
abbrev pub new_wallet : ℕ → ℕ → Wallet
new_wallet id account_id = record {
  id = id;
  account_id = account_id;
  tier = basic;
  daily_limit = 10000000;
  single_transaction_limit = 5000000;
  monthly_spend = 0;
  monthly_limit = 50000000;
  spend_reset_date = none;
  is_virtual = false;
}

-- `!wallet.spendResetDate || now > wallet.spendResetDate`
abbrev pub is_due : ℕ → Option ℕ → Bool
is_due now none = true
is_due now (some date) = ltb date now

abbrev pub with_tier : WalletTier → Wallet → Wallet
with_tier tier w = record w {
  tier = tier;
  daily_limit = (tier_limits tier).daily;
  single_transaction_limit = (tier_limits tier).single;
  monthly_limit = (tier_limits tier).monthly;
}

module _ {Db : Type 0} (wallets : Repository Wallet Db) where
  unfoldable pub create_for_account : ℕ → ℕ → Action Db Wallet
  create_for_account id account_id = do
    attempt (wallets.save (new_wallet id account_id))
    pure (new_wallet id account_id)

  unfoldable pub find_by_account : ℕ → Action Db Wallet
  find_by_account account_id = do
    or_throw (← gets (wallets.find_one (λ w. w.account_id == account_id)))
        (not_found "Wallet not found for this account")

  unfoldable pub find_by_id : ℕ → Action Db Wallet
  find_by_id id = do
    or_throw (← gets (wallets.find_one (λ w. w.id == id))) (not_found "Wallet not found")

  -- The wallet as it stands after the monthly reset, which is saved if it was due.
  unfoldable pub roll_over : (ℕ → ℕ) → ℕ → Wallet → Action Db Wallet
  roll_over next_month now wallet =
      let wallet' : Wallet = record wallet {
        monthly_spend = 0;
        spend_reset_date = some (next_month now);
      } in
      let reset : Action Db Wallet = attempt (wallets.save wallet') >> pure wallet' in
      if is_due now wallet.spend_reset_date then reset else pure wallet

  unfoldable pub validate_spend_limit : (ℕ → String) → (ℕ → ℕ) → ℕ → ℕ → ℕ → Action Db (Unit {0})
  unfolding find_by_id roll_over
  validate_spend_limit naira next_month now wallet_id amount_in_kobo = do
    wallet ← find_by_id wallet_id
    throw_if (ltb wallet.single_transaction_limit amount_in_kobo) (
        bad_request
          ("Amount exceeds single transaction limit of ₦" <> naira wallet.single_transaction_limit))
    current ← roll_over next_month now wallet
    throw_if (ltb current.monthly_limit (current.monthly_spend + amount_in_kobo))
        (bad_request "Monthly spending limit exceeded")

  unfoldable pub record_spend : ℕ → ℕ → Action Db (Unit {0})
  record_spend wallet_id amount_in_kobo = modify (
      wallets.update (λ w. w.id == wallet_id)
        (λ w. record w { monthly_spend = w.monthly_spend + amount_in_kobo }))

  unfoldable pub upgrade_tier : ℕ → WalletTier → Action Db Wallet
  unfolding find_by_account tier_limits
  upgrade_tier account_id tier = do
    wallet ← find_by_account account_id
    attempt (wallets.save (with_tier tier wallet))
    pure (with_tier tier wallet)

  unfoldable pub get_limits : ℕ → Action Db LimitsView
  unfolding find_by_account
  get_limits account_id = do
    wallet ← find_by_account account_id
    pure (record {
      tier = wallet.tier;
      limits = record {
        daily = wallet.daily_limit;
        single = wallet.single_transaction_limit;
        monthly = wallet.monthly_limit;
      };
      monthly_spend = wallet.monthly_spend;
      monthly_remaining = pos wallet.monthly_limit -ℤ pos wallet.monthly_spend;
    })
