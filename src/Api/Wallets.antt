-- ===== src/Api/Wallets.antt =====
-- The wallets of the running application: no controller calls `createForAccount`. What the wallets'
-- controller and KYC do while there is none.
-- Source: src/wallets/wallets.service.ts, src/kyc/kyc.service.ts.
pub mod Requests
use vault_api.Prelude.{
  ℕ, String, Option, none, some, List, [], ◌∷◌, ◌≡◌, ◌∙◌, arith, refl, inl, inr, Option-cases,
  nat_eq, ◌==◌, Bool,
}
use vault_api.Http.Exception.{Exception, not_found}
use vault_api.Http.Action.{ok, err, Result-cases}
use vault_api.App.{App}
use vault_api.Orm.{IsLawful, IsApart, row}
use vault_api.Auth.Guards.{Principal, authorise, user_id_of}
use vault_api.Accounts.Entity.{Account}
use vault_api.Transactions.Idempotency.{can_activate}
use vault_api.Transactions.Controller as TransactionsController
use vault_api.Transactions.Queries.{find_all, find_by_account, find_by_reference}
use vault_api.Users.Entity.{verified, KycStatus}
use vault_api.Webhooks.Controller as WebhooksController
use vault_api.Webhooks.Charges.{process_paystack_webhook_idle, process_flutterwave_webhook_idle}
use vault_api.Wallets.Entity.{Wallet, WalletTier, standard}
use vault_api.Wallets.{get_limits, upgrade_tier}
use vault_api.Wallets.Controller as WalletsController
use vault_api.Kyc.{
  upgrade_all, upgrade_user_after_kyc, accounts_of, set_kyc_status, submit, review, reviewed,
  get_my_submission,
}
use vault_api.Kyc.Entity.{KycSubmission, ReviewKycDto}
use vault_api.Kyc.Controller as KycController
use vault_api.Api.{
  Services, Draws, Endpoint, accounts, admin, auth, beneficiaries, fees, health, kyc, notifications,
  statements, transactions, transaction_pin, users, wallets, webhooks, access, draw_of, kyc_tables,
  report_tables, handle, respond,
}
use vault_api.Api.Effect.{can_activate-db}
use vault_api.Api.Frame.{SameRows}
use vault_api.Api.Frame.Reports.{statements-SameRows, admin-SameRows, health-SameRows}
use vault_api.Api.Frame.People.{users-SameRows, auth-SameRows, transaction_pin-SameRows}
use vault_api.Api.Frame.Records.{beneficiaries-SameRows, notifications-SameRows, fees-SameRows}
use vault_api.Accounts.{find_one}
use vault_api.Api.Frame.Money.{accounts-SameRows, transfer-Same, deposit-Same, withdraw-Same}

-- The table of wallets keeps the promises of the repositories, a write to another table leaves it
-- alone, and a commit publishes the copy as it is.
pub record WalletsApart {Db : Type 0} (svc : Services Db) : Type 0 where
  pub lawful : IsLawful (λ w. w.id) svc.wallets
  pub accounts_apart : IsApart svc.tables.accounts svc.wallets
  pub transactions_apart : IsApart svc.tables.transactions svc.wallets
  pub fees_apart : IsApart svc.tables.fees svc.wallets
  pub users_apart : IsApart svc.users svc.wallets
  pub submissions_apart : IsApart svc.submissions svc.wallets
  pub beneficiaries_apart : IsApart svc.beneficiaries svc.wallets
  pub notifications_apart : IsApart svc.notifications svc.wallets
  pub commit-ok : (db db' : Db) → svc.tables.commit db ≡ ok db' → db' ≡ db

module _ {Db : Type 0} (svc : Services Db) where
  abbrev pub NoWallets : Db → Type 0
  NoWallets db = (j : ℕ) → row (λ w. w.id) svc.wallets j db ≡ none

  module _ (W : WalletsApart svc) where
    pub no_wallet : (p : Wallet → Bool) (db : Db) → NoWallets db → svc.wallets.find_one p db ≡ none
    no_wallet p db empty = elim (Option-cases (svc.wallets.find_one p db)) [
      | inl missing ↦ missing
      | inr (w, found) ↦
          let (_, stored) = W.lawful.find_one-some p db w found in
          absurd (ground (arith, stored, empty w.id))
    ]

    upgrade_tier_idle :
        (account_id : ℕ) (tier : WalletTier) (db : Db)
        → NoWallets db
        → (upgrade_tier svc.wallets account_id tier db).1 ≡ db
    unfolding upgrade_tier
    upgrade_tier_idle account_id tier db empty =
        ground (arith, no_wallet (λ w. w.account_id == account_id) db empty)

    -- While there is no wallet, every request for limits or a new tier is refused, and changes nothing.
    pub wallets_refused :
        (r : WalletsController.Route) (db : Db)
        → NoWallets db
        → WalletsController.handle svc.wallets r db
          ≡ (err (not_found "Wallet not found for this account"), db)
    unfolding WalletsController.handle get_limits upgrade_tier
    wallets_refused (WalletsController.get_limits account_id) db empty =
        ground (arith, no_wallet (λ w. w.account_id == account_id) db empty)
    wallets_refused (WalletsController.upgrade_tier account_id tier) db empty =
        ground (arith, no_wallet (λ w. w.account_id == account_id) db empty)

    upgrade_all-NoWallets :
        (rows : List Account) (db : Db)
        → NoWallets db
        → NoWallets (upgrade_all (kyc_tables svc) rows db)
    unfolding upgrade_all
    upgrade_all-NoWallets [] db empty = empty
    upgrade_all-NoWallets (a ∷ rows) db empty =
        upgrade_all-NoWallets rows (upgrade_tier svc.wallets a.id standard db).1
          λ j. rw (upgrade_tier_idle a.id standard db empty) (empty j)

    upgrade_user_after_kyc-NoWallets :
        (user_id : ℕ) (db : Db)
        → NoWallets db
        → NoWallets (upgrade_user_after_kyc (kyc_tables svc) user_id db)
    unfolding upgrade_user_after_kyc
    upgrade_user_after_kyc-NoWallets user_id db empty =
        let db' : Db = set_kyc_status (kyc_tables svc) user_id verified db in
        upgrade_all-NoWallets (accounts_of (kyc_tables svc) user_id db') db'
          λ j. W.users_apart.find_one-update _ _ db (λ w. w.id == j) ∙ empty j

    review-NoWallets :
        (now id reviewer_id : ℕ) (dto : ReviewKycDto) (s : App Db)
        → NoWallets s.db
        → NoWallets (review (kyc_tables svc) now id reviewer_id dto s).1.db
    unfolding review
    review-NoWallets now id reviewer_id dto s empty j =
        elim (Option-cases (svc.submissions.find_one (λ k. k.id == id) s.db)) [
          | inl missing ↦ ground (arith, empty j)
          | inr (k, found) ↦
              let k' : KycSubmission = reviewed now reviewer_id dto k in
              elim (Result-cases (svc.submissions.save k' s.db)) [
                | inl (db', saved) ↦
                    let empty' : NoWallets db' = λ i.
                      W.submissions_apart.find_one-save k' s.db db' (λ w. w.id == i) saved
                      ∙ empty i in
                    grind (
                      arith,
                      empty j,
                      empty' j,
                      upgrade_user_after_kyc-NoWallets k.user_id db' empty' j,
                      W.users_apart.find_one-update,
                    )
                | inr (e, refused) ↦ ground (arith, empty j)
              ]
        ]

    pub kyc-NoWallets :
        (now new_id : ℕ) (user : Option Principal) (r : KycController.Route) (s : App Db)
        → NoWallets s.db
        → NoWallets (KycController.handle (kyc_tables svc) now new_id user r s).1.db
    unfolding KycController.handle submit review get_my_submission
    kyc-NoWallets now new_id user (KycController.submit dto) s empty j =
        grind (arith, W.submissions_apart.find_one-save, empty j)
    kyc-NoWallets now new_id user KycController.get_my_status s empty j = grind (arith, empty j)
    kyc-NoWallets now new_id user KycController.get_pending s empty j = grind (arith, empty j)
    kyc-NoWallets now new_id user KycController.get_all s empty j = grind (arith, empty j)
    kyc-NoWallets now new_id user (KycController.review id dto) s empty j =
        elim (Result-cases (user_id_of user s).0) [
          | inl (u, signed) ↦ ground (arith, review-NoWallets now id u dto s empty j)
          | inr (e, unsigned) ↦ ground (arith, empty j)
        ]
