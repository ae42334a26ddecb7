-- ===== src/Wallets/Controller.antt =====
-- `WalletsController`.
-- Source: src/wallets/wallets.controller.ts.
use vault_api.Prelude.{ℕ, [], ◌∷◌}
use vault_api.Http.Action.{Action}
use vault_api.Orm.{Repository}
use vault_api.Users.Entity.{admin}
use vault_api.Auth.Guards.{Access, signed_in, for_roles}
use vault_api.Wallets.Entity.{Wallet, WalletTier}
use vault_api.Wallets.{LimitsView}

pub data Route : Type 0 where
  get_limits : ℕ → Route
  upgrade_tier : ℕ → WalletTier → Route

unfoldable pub access : Route → Access
access (get_limits account_id) = signed_in
access (upgrade_tier account_id tier) = for_roles (admin ∷ [])

abbrev pub Reply : Route → Type 0
Reply (get_limits account_id) = LimitsView
Reply (upgrade_tier account_id tier) = Wallet

module _ {Db : Type 0} (wallets : Repository Wallet Db) where
  unfoldable pub handle : (route : Route) → Action Db (Reply route)
  handle (get_limits account_id) = vault_api.Wallets.get_limits wallets account_id
  handle (upgrade_tier account_id tier) = vault_api.Wallets.upgrade_tier wallets account_id tier
