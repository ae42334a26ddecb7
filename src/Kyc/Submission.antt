-- ===== src/Kyc/Submission.antt =====
-- When documents may be handed in.
use vault_api.Prelude.{ℕ, ◌<>◌, ◌≡◌, ◌≢◌, arith, none, some, ◌==◌, nat_eq, inl, inr, Option-cases}
use vault_api.Http.Exception.{bad_request}
use vault_api.Http.Action.{ok, err}
use vault_api.App.{App}
use vault_api.Orm.{IsLawful, row}
use vault_api.Orm.Laws.{row-save_self}
use vault_api.Kyc.Entity.{
  KycSubmission, submitted, rejected, submission_status_eq, status_text, SubmitKycDto,
}
use vault_api.Kyc.{KycTables, submit, new_submission, resubmitted}

module _ {Db : Type 0} (t : KycTables Db) (L : IsLawful (λ k. k.id) t.submissions) where
  -- A submission that goes through is stored as submitted for its user, with no reviewer and no
  -- reason of a rejection, and was the first or followed a rejection.
  pub submit-ok :
      (id user_id : ℕ) (dto : SubmitKycDto) (s s' : App Db) (k : KycSubmission)
      → submit t id user_id dto s ≡ (ok k, s')
      → (row (λ k. k.id) t.submissions k.id s'.db ≡ some k)
        × (k.user_id ≡ user_id)
        × (k.status ≡ submitted)
        × (k.reviewed_by ≡ none)
        × (k.rejection_reason ≡ none)
        × (k.document_number ≡ dto.document_number)
        × ((old : KycSubmission)
            → t.submissions.find_one (λ k. k.user_id == user_id) s.db ≡ some old
            → old.status ≡ rejected)
  unfolding submit
  submit-ok id user_id dto s s' k h =
      elim (Option-cases (t.submissions.find_one (λ k. k.user_id == user_id) s.db)) [
        | inl first ↦
            let new : KycSubmission = new_submission id user_id dto in
            let stored = row-save_self (λ k. k.id) t.submissions L new s.db s'.db in
            (
              ground (arith, stored),
              ground arith,
              ground arith,
              ground arith,
              ground arith,
              ground arith,
              λ old g. absurd (ground arith),
            )
        | inr (old, found) ↦
            let (mine, _) = L.find_one-some (λ k. k.user_id == user_id) s.db old found in
            let again : KycSubmission = resubmitted dto old in
            let stored = row-save_self (λ k. k.id) t.submissions L again s.db s'.db in
            (
              ground (arith, stored),
              ground (arith, mine),
              ground arith,
              ground arith,
              ground arith,
              ground arith,
              λ other g. ground arith,
            )
      ]

  -- While a user's submission has not been rejected, a further one is refused and nothing changes.
  pub submit_again :
      (id user_id : ℕ) (dto : SubmitKycDto) (s : App Db) (old : KycSubmission)
      → t.submissions.find_one (λ k. k.user_id == user_id) s.db ≡ some old
      → old.status ≢ rejected
      → submit t id user_id dto s ≡ (
        err (
            bad_request (
              "KYC is already "
              <> status_text old.status
              <> ". Re-submission only allowed after rejection.")),
        s,
      )
  unfolding submit
  submit_again id user_id dto s old found standing = ground arith
