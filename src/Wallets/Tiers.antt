-- ===== src/Wallets/Tiers.antt =====
-- Changing the tier of a wallet.
use vault_api.Prelude.{
  ℕ, ◌≤◌, ◌≡◌, arith, some, ◌==◌, nat_eq, if◌then◌else◌, inl, inr, Option-cases,
}
use vault_api.Http.Action.{ok}
use vault_api.Orm.{Repository, IsLawful, row}
use vault_api.Wallets.Entity.{Wallet, WalletTier, basic, standard, premium}
use vault_api.Wallets.{upgrade_tier, with_tier, tier_limits}

-- Every limit of a higher tier is at least that of the lower.
pub tier_limits_mono :
    ((tier_limits basic).daily ≤ (tier_limits standard).daily)
    × ((tier_limits basic).single ≤ (tier_limits standard).single)
    × ((tier_limits standard).monthly ≤ (tier_limits premium).monthly)
unfolding tier_limits
tier_limits_mono = (omega arith, omega arith, omega arith)

module _ {Db : Type 0} (wallets : Repository Wallet Db) (L : IsLawful (λ w. w.id) wallets) where
  -- A change of tier that returns has given the account's wallet the limits of the tier, has kept its
  -- spending and its key, and has left every other wallet as it was.
  pub upgrade_tier-ok :
      (account_id : ℕ) (tier : WalletTier) (db db' : Db) (w' : Wallet)
      → upgrade_tier wallets account_id tier db ≡ (ok w', db')
      → (w : Wallet) × (w.account_id ≡ account_id)
        × (row (λ w. w.id) wallets w.id db ≡ some w)
        × (w' ≡ with_tier tier w)
        × ((j : ℕ)
            → row (λ w. w.id) wallets j db'
              ≡ (if j == w.id then some w' else row (λ w. w.id) wallets j db))
  unfolding upgrade_tier
  upgrade_tier-ok account_id tier db db' w' h =
      elim (Option-cases (wallets.find_one (λ w. w.account_id == account_id) db)) [
        | inl missing ↦ absurd (ground arith)
        | inr (w, found) ↦
            let (mine, stored) = L.find_one-some (λ w. w.account_id == account_id) db w found in
            (
              w,
              ground (arith, mine),
              stored,
              ground arith,
              λ j. ground (arith, L.row-save (with_tier tier w) db db' j),
            )
      ]
