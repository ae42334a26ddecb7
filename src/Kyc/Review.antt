-- ===== src/Kyc/Review.antt =====
-- What a review leaves behind.
use vault_api.Prelude.{
  ℕ, ◌≡◌, ◌≢◌, ◌⊎◌, ◌∙◌, refl, arith, Bool, Option, none, some, List, [], ◌∷◌, ◌==◌, nat_eq, inl,
  inr, Option-cases,
}
use vault_api.Http.Exception.{bad_request}
use vault_api.Http.Action.{ok, err, Result-cases}
use vault_api.App.{App}
use vault_api.Orm.{IsLawful, IsApart, row}
use vault_api.Orm.Laws.{row-id}
use vault_api.Accounts.Entity.{Account}
use vault_api.Users.Entity.{User, KycStatus, verified, present}
use vault_api.Wallets.Entity.{standard}
use vault_api.Wallets.{upgrade_tier, with_tier}
use vault_api.Kyc.Entity.{
  KycSubmission, KycSubmissionStatus, approved, rejected, submission_status_eq, ReviewKycDto,
  Decision, approve, reject,
}
use vault_api.Kyc.{
  KycTables, review, reviewed, upgrade_all, upgrade_user_after_kyc, set_kyc_status, accounts_of,
}

-- The tables are TypeORM's, and no write to one of them reaches another.
pub record AreSeparate {Db : Type 0} (t : KycTables Db) : Type 0 where
  pub submissions : IsLawful (λ k. k.id) t.submissions
  pub users : IsLawful (λ u. u.id) t.users
  pub wallets_submissions : IsApart t.wallets t.submissions
  pub wallets_users : IsApart t.wallets t.users
  pub users_submissions : IsApart t.users t.submissions
  pub submissions_users : IsApart t.submissions t.users

Decision-cases : (d : Decision) → (d ≡ approve) ⊎ (d ≡ reject)
Decision-cases approve = inl refl
Decision-cases reject = inr refl

module _ {Db : Type 0} (t : KycTables Db) (S : AreSeparate t) where
  -- Changing a wallet's tier reads as nothing to the two other tables.
  upgrade_tier-apart :
      (i : ℕ) (p : KycSubmission → Bool) (q : User → Bool) (db : Db)
      → let db' = (upgrade_tier t.wallets i standard db).1 in
        (t.submissions.find_one p db' ≡ t.submissions.find_one p db)
        × (t.users.find_one q db' ≡ t.users.find_one q db)
  unfolding upgrade_tier
  upgrade_tier-apart i p q db =
      elim (Option-cases (t.wallets.find_one (λ w. w.account_id == i) db)) [
        | inl missing ↦ (ground arith, ground arith)
        | inr (w, found) ↦ elim (Result-cases (t.wallets.save (with_tier standard w) db)) [
          | inl (db', saved) ↦ (
            ground
                (arith, S.wallets_submissions.find_one-save (with_tier standard w) db db' p saved),
            ground (arith, S.wallets_users.find_one-save (with_tier standard w) db db' q saved),
          )
          | inr (e, refused) ↦ (ground arith, ground arith)
        ]
      ]

  upgrade_all-apart :
      (accounts : List Account) (p : KycSubmission → Bool) (q : User → Bool) (db : Db)
      → (t.submissions.find_one p (upgrade_all t accounts db) ≡ t.submissions.find_one p db)
        × (t.users.find_one q (upgrade_all t accounts db) ≡ t.users.find_one q db)
  unfolding upgrade_all
  upgrade_all-apart [] p q db = (refl, refl)
  upgrade_all-apart (a ∷ accounts) p q db =
      let head = upgrade_tier-apart a.id p q db in
      let rest = upgrade_all-apart accounts p q (upgrade_tier t.wallets a.id standard db).1 in
      (rest.0 ∙ head.0, rest.1 ∙ head.1)

  abbrev pub with_status : KycStatus → Option User → Option User
  with_status status none = none
  with_status status (some u) = some (record u { kyc_status = status })

  set_kyc_status-row :
      (user_id : ℕ) (status : KycStatus) (db : Db)
      → row (λ u. u.id) t.users user_id (set_kyc_status t user_id status db)
        ≡ with_status status (row (λ u. u.id) t.users user_id db)
  set_kyc_status-row user_id status db =
      let updated =
        S.users.row-update (λ u. u.id == user_id) (λ u. record u { kyc_status = status }) db user_id
          (λ _. refl) in
      elim (Option-cases (row (λ u. u.id) t.users user_id db)) [
        | inl missing ↦ ground (arith, updated)
        | inr (u, found) ↦
            ground (arith, updated, row-id (λ u. u.id) t.users S.users user_id db u found)
      ]

  set_kyc_status-submissions :
      (user_id : ℕ) (status : KycStatus) (p : KycSubmission → Bool) (db : Db)
      → t.submissions.find_one p (set_kyc_status t user_id status db) ≡ t.submissions.find_one p db
  set_kyc_status-submissions user_id status p db =
      S.users_submissions.find_one-update (λ u. u.id == user_id)
        (λ u. record u { kyc_status = status }) db p

  upgrade_user-rows :
      (user_id : ℕ) (p : KycSubmission → Bool) (db : Db)
      → (t.submissions.find_one p (upgrade_user_after_kyc t user_id db)
          ≡ t.submissions.find_one p db)
        × (row (λ u. u.id) t.users user_id (upgrade_user_after_kyc t user_id db)
            ≡ with_status verified (row (λ u. u.id) t.users user_id db))
  unfolding upgrade_user_after_kyc
  upgrade_user-rows user_id p db =
      let marked : Db = set_kyc_status t user_id verified db in
      let (one, two) =
        upgrade_all-apart (accounts_of t user_id marked) p (λ u. u.id == user_id) marked in
      (
        one ∙ set_kyc_status-submissions user_id verified p db,
        two ∙ set_kyc_status-row user_id verified db,
      )

  -- What the save of the reviewed submission leaves.
  review_saved :
      (user_id id : ℕ) (new : KycSubmission) (db db' : Db)
      → new.id ≡ id
      → t.submissions.save new db ≡ ok db'
      → (row (λ k. k.id) t.submissions id db' ≡ some new)
        × (row (λ u. u.id) t.users user_id db' ≡ row (λ u. u.id) t.users user_id db)
  review_saved user_id id new db db' key saved = (
    ground (arith, S.submissions.row-save new db db' id saved),
    S.submissions_users.find_one-save new db db' (λ u. u.id == user_id) saved,
  )

  abbrev pub outcome : Decision → KycStatus
  outcome approve = verified
  outcome reject = KycStatus.rejected

  -- The status of a submission after a decision.
  abbrev pub verdict : Decision → KycSubmissionStatus
  verdict approve = approved
  verdict reject = rejected

  -- A review that returns was of a submission not yet approved and rejects with a reason only. It leaves
  -- the submission stored as approved or as rejected, with the reviewer, the time and the reason that
  -- was given, and otherwise as it was; the user's KYC status says verified after an
  -- approval and rejected after a rejection.
  pub review-ok :
      (now id reviewer_id : ℕ) (dto : ReviewKycDto) (s s' : App Db) (k : KycSubmission)
      → review t now id reviewer_id dto s ≡ (ok k, s')
      → (old : KycSubmission) × (row (λ k. k.id) t.submissions id s.db ≡ some old)
        × (old.status ≢ approved)
        × (dto.decision ≡ reject → present dto.rejection_reason ≢ none)
        × (k ≡ record old {
          status = verdict dto.decision;
          rejection_reason = dto.rejection_reason;
          reviewed_by = some reviewer_id;
          reviewed_at = some now;
        })
        × (row (λ k. k.id) t.submissions id s'.db ≡ some k)
        × (row (λ u. u.id) t.users old.user_id s'.db
            ≡ with_status (outcome dto.decision) (row (λ u. u.id) t.users old.user_id s.db))
  unfolding review
  review-ok now id reviewer_id dto s s' k h =
      elim (Option-cases (row (λ k. k.id) t.submissions id s.db)) [
        | inl missing ↦ absurd (ground arith)
        | inr (old, found) ↦
            let new : KycSubmission = reviewed now reviewer_id dto old in
            elim (Result-cases (t.submissions.save new s.db)) [
              | inl (db, saved) ↦
                  let here =
                    review_saved old.user_id id new s.db db
                      (row-id (λ k. k.id) t.submissions S.submissions id s.db old found) saved in
                  elim (Decision-cases dto.decision) [
                    | inl yes_decision ↦
                        let after = upgrade_user-rows old.user_id (λ k. k.id == id) db in
                        (
                          old,
                          found,
                          ground arith,
                          λ no_decision. ground arith,
                          ground arith,
                          ground (arith, here.0, after.0),
                          ground (arith, here.1, after.1),
                        )
                    | inr no_decision ↦
                        let marked = set_kyc_status-row old.user_id KycStatus.rejected db in
                        let kept =
                          set_kyc_status-submissions old.user_id KycStatus.rejected
                            (λ k. k.id == id) db in
                        (
                          old,
                          found,
                          ground arith,
                          λ _. ground arith,
                          ground arith,
                          ground (arith, here.0, kept),
                          ground (arith, here.1, marked),
                        )
                  ]
              | inr (e, refused) ↦ absurd (ground arith)
            ]
      ]

  -- An approval is final: once it is given, every further review of the submission is refused.
  pub review-review :
      (now later id reviewer_id other : ℕ) (dto again : ReviewKycDto) (s s' : App Db)
      (k : KycSubmission)
      → dto.decision ≡ approve
      → review t now id reviewer_id dto s ≡ (ok k, s')
      → review t later id other again s' ≡ (err (bad_request "Already approved"), s')
  unfolding review
  review-review now later id reviewer_id other dto again s s' k yes_decision h =
      let (old, _, _, _, is_k, stored, _) = review-ok now id reviewer_id dto s s' k h in
      ground (arith, is_k, stored)
