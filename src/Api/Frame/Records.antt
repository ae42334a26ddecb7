-- ===== src/Api/Frame/Records.antt =====
-- Beneficiaries, notifications, wallets, fee rules and KYC.
use vault_api.Prelude.{ℕ, Option, List, [], ◌∷◌, arith, inl, inr, ◌==◌, nat_eq, ◌∙◌, refl, ◌≡◌}
use vault_api.Http.Action.{ok, Result-cases}
use vault_api.App.{App}
use vault_api.Orm.{Repository, IsApart}
use vault_api.Accounts.Entity.{Account}
use vault_api.Auth.Guards.{Principal}
use vault_api.Beneficiaries.{Beneficiary}
use vault_api.Beneficiaries.Controller as BeneficiariesController
use vault_api.Notifications.Entity.{Notification}
use vault_api.Notifications.{mark_as_read, mark_all_as_read}
use vault_api.Notifications.Controller as NotificationsController
use vault_api.Wallets.Entity.{Wallet, standard}
use vault_api.Wallets.{get_limits, upgrade_tier}
use vault_api.Wallets.Controller as WalletsController
use vault_api.Fees.Entity.{FeeConfig}
use vault_api.Fees.{save_all, default_rules, upsert, deactivate, seed_defaults}
use vault_api.Fees.Controller as FeesController
use vault_api.Users.Entity.{verified}
use vault_api.Kyc.{
  KycTables, set_kyc_status, accounts_of, upgrade_all, submit, review, upgrade_user_after_kyc,
  get_my_submission,
}
use vault_api.Kyc.Controller as KycController
use vault_api.Api.Frame.{SameRows, SameAccounts}

module _ {Db : Type 0} {F : Type 0} (key : F → ℕ) (others : Repository F Db) where
  module _ (R : Repository Beneficiary Db) (A : IsApart R others) where
    pub beneficiaries-SameRows :
        (new_id : ℕ) (user : Option Principal) (r : BeneficiariesController.Route) (db : Db)
        → SameRows key others db (BeneficiariesController.handle R new_id user r db).1
    unfolding BeneficiariesController.handle vault_api.Beneficiaries.create
        vault_api.Beneficiaries.find_one vault_api.Beneficiaries.update
        vault_api.Beneficiaries.remove
    beneficiaries-SameRows new_id user (BeneficiariesController.create dto) db j =
        grind (arith, A.find_one-save)
    beneficiaries-SameRows new_id user BeneficiariesController.find_all db j = grind (arith)
    beneficiaries-SameRows new_id user (BeneficiariesController.find_one id) db j = grind (arith)
    beneficiaries-SameRows new_id user (BeneficiariesController.update id dto) db j =
        grind (arith, A.find_one-save)
    beneficiaries-SameRows new_id user (BeneficiariesController.remove id) db j =
        grind (arith, A.find_one-save)

  module _ (R : Repository Notification Db) (A : IsApart R others) where
    pub notifications-SameRows :
        (sorted : List Notification → List Notification) (now : ℕ) (user : Option Principal)
        (r : NotificationsController.Route) (db : Db)
        → SameRows key others db (NotificationsController.handle R sorted now user r db).1
    unfolding NotificationsController.handle mark_as_read mark_all_as_read
    notifications-SameRows sorted now user (NotificationsController.find_all page limit unread_only)
          db j =
        grind (arith)
    notifications-SameRows sorted now user NotificationsController.unread_count db j = grind (arith)
    notifications-SameRows sorted now user (NotificationsController.mark_read id) db j =
        grind (arith, A.find_one-save)
    notifications-SameRows sorted now user NotificationsController.mark_all_read db j =
        grind (arith, A.find_one-update)

  module _ (R : Repository Wallet Db) (A : IsApart R others) where
    pub wallets-SameRows :
        (r : WalletsController.Route) (db : Db)
        → SameRows key others db (WalletsController.handle R r db).1
    unfolding WalletsController.handle get_limits upgrade_tier
    wallets-SameRows (WalletsController.get_limits account_id) db j = grind (arith)
    wallets-SameRows (WalletsController.upgrade_tier account_id tier) db j =
        grind (arith, A.find_one-save)

  module _ (R : Repository FeeConfig Db) (A : IsApart R others) where
    save_all-SameRows :
        (rules : List FeeConfig) (db db' : Db)
        → save_all R rules db ≡ ok db'
        → SameRows key others db db'
    unfolding save_all
    save_all-SameRows [] db db' h j = grind (arith)
    save_all-SameRows (r ∷ rules) db db' h j = elim (Result-cases (R.save r db)) [
      | inl (middle, saved) ↦ ground (
        arith,
        A.find_one-save r db middle (λ a. key a == j) saved,
        save_all-SameRows rules middle db' (ground arith) j,
      )
      | inr (e, refused) ↦ absurd (ground arith)
    ]

    pub fees-SameRows :
        (x y z : ℕ) (r : FeesController.Route) (s : App Db)
        → SameRows key others s.db (FeesController.handle R x y z r s).1.db
    unfolding FeesController.handle upsert deactivate seed_defaults
    fees-SameRows x y z FeesController.find_all s j = grind (arith)
    fees-SameRows x y z (FeesController.upsert dto) s j = grind (arith, A.find_one-save)
    fees-SameRows x y z (FeesController.deactivate id) s j = grind (arith, A.find_one-update)
    fees-SameRows x y z FeesController.seed s j =
        grind (arith, save_all-SameRows (default_rules x y z) s.db)

module _ {Db : Type 0} (t : KycTables Db) (users_apart : IsApart t.users t.accounts)
    (wallets_apart : IsApart t.wallets t.accounts)
    (submissions_apart : IsApart t.submissions t.accounts) where
  upgrade_tier-SameAccounts :
      (id : ℕ) (db : Db) → SameAccounts t.accounts db (upgrade_tier t.wallets id standard db).1
  unfolding upgrade_tier
  upgrade_tier-SameAccounts id db j = grind (arith, wallets_apart.find_one-save)

  upgrade_all-SameAccounts :
      (rows : List Account) (db : Db) → SameAccounts t.accounts db (upgrade_all t rows db)
  unfolding upgrade_all
  upgrade_all-SameAccounts [] db j = refl
  upgrade_all-SameAccounts (a ∷ rows) db j =
      upgrade_all-SameAccounts rows (upgrade_tier t.wallets a.id standard db).1 j
      ∙ upgrade_tier-SameAccounts a.id db j

  upgrade_user_after_kyc-SameAccounts :
      (user_id : ℕ) (db : Db) → SameAccounts t.accounts db (upgrade_user_after_kyc t user_id db)
  unfolding upgrade_user_after_kyc
  upgrade_user_after_kyc-SameAccounts user_id db j =
      let db' : Db = set_kyc_status t user_id verified db in
      upgrade_all-SameAccounts (accounts_of t user_id db') db' j
      ∙ users_apart.find_one-update _ _ db (λ a. a.id == j)

  pub kyc-SameAccounts :
      (now new_id : ℕ) (user : Option Principal) (r : KycController.Route) (s : App Db)
      → SameAccounts t.accounts s.db (KycController.handle t now new_id user r s).1.db
  unfolding KycController.handle submit review get_my_submission
  kyc-SameAccounts now new_id user (KycController.submit dto) s j =
      grind (arith, submissions_apart.find_one-save)
  kyc-SameAccounts now new_id user KycController.get_my_status s j = grind (arith)
  kyc-SameAccounts now new_id user KycController.get_pending s j = grind (arith)
  kyc-SameAccounts now new_id user KycController.get_all s j = grind (arith)
  kyc-SameAccounts now new_id user (KycController.review id dto) s j = grind (
    arith, submissions_apart.find_one-save, users_apart.find_one-update,
    upgrade_user_after_kyc-SameAccounts,
  )
