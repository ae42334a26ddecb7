-- ===== src/Wallets/Entity.antt =====
-- The entity `Wallet` and its tiers. Amounts are in kobo; times are in milliseconds.
-- Source: src/wallets/entities/wallet.entity.ts.
use vault_api.Prelude.{ℕ, Bool, Option}

pub data WalletTier : Type 0 where
  basic standard premium : WalletTier

pub record Wallet : Type 0 where
  pub id : ℕ
  pub account_id : ℕ
  pub tier : WalletTier
  pub daily_limit : ℕ
  pub single_transaction_limit : ℕ
  pub monthly_spend : ℕ
  pub monthly_limit : ℕ
  pub spend_reset_date : Option ℕ
  pub is_virtual : Bool
