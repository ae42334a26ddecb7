-- ===== src/Kyc.antt =====
-- `KycService`: the submission of documents, their review, and what an approval does to the user and
-- to the wallets of the user's accounts. A null stored by an optional field that is missing is `none`.
-- Source: src/kyc/kyc.service.ts.
pub mod Entity
pub mod Submission
pub mod Review
pub mod Controller
use vault_api.Prelude.{
  ℕ, String, ◌<>◌, Bool, true, false, ◌&&◌, Option, none, some, List, [], ◌∷◌, ◌==◌, ◌!=◌, nat_eq,
  if◌then◌else◌,
}
use vault_api.Http.Exception.{not_found, bad_request}
use vault_api.Http.Action.{
  Result, ok, err, Action, ◌>>=◌, ◌>>◌, pure, throw_if, or_throw, gets, modify, attempt,
}
use vault_api.App.{App, on_db, try_catch, log}
use vault_api.Orm.{Repository}
use vault_api.Audit.Entity.{
  AuditAction, AuditContext, by_key, key, string, undefined, MetadataValue, kyc_submitted,
  kyc_approved, kyc_rejected,
}
use vault_api.Accounts.Entity.{Account}
use vault_api.Users.Entity.{User, KycStatus, verified, present}
use vault_api.Wallets.Entity.{Wallet, standard}
use vault_api.Wallets.{upgrade_tier}
use vault_api.Kyc.Entity.{
  KycSubmission, submitted, approved, rejected, submission_status_eq, status_text, SubmitKycDto,
  ReviewKycDto, Decision, approve, reject,
}

-- The tables that the service reaches.
pub record KycTables (Db : Type 0) : Type 0 where
  pub submissions : Repository KycSubmission Db
  pub users : Repository User Db
  pub accounts : Repository Account Db
  pub wallets : Repository Wallet Db

-- A field that is given replaces what was stored.
abbrev or_kept : {A : Type 0} → Option A → Option A → Option A
or_kept none old = old
or_kept (some new) old = some new

-- `Object.assign(existing, dto, {…})`
abbrev pub resubmitted : SubmitKycDto → KycSubmission → KycSubmission
resubmitted dto s = record s {
  document_type = dto.document_type;
  document_number = dto.document_number;
  document_front_url = or_kept dto.document_front_url s.document_front_url;
  document_back_url = or_kept dto.document_back_url s.document_back_url;
  selfie_url = or_kept dto.selfie_url s.selfie_url;
  status = submitted;
  rejection_reason = none;
  reviewed_by = none;
  reviewed_at = none;
}

abbrev pub new_submission : ℕ → ℕ → SubmitKycDto → KycSubmission
new_submission id user_id dto = record {
  id = id;
  user_id = user_id;
  document_type = dto.document_type;
  document_number = dto.document_number;
  document_front_url = dto.document_front_url;
  document_back_url = dto.document_back_url;
  selfie_url = dto.selfie_url;
  status = submitted;
  rejection_reason = none;
  reviewed_by = none;
  reviewed_at = none;
}

abbrev pub reviewed : ℕ → ℕ → ReviewKycDto → KycSubmission → KycSubmission
reviewed now reviewer_id dto s = record s {
  status = elim dto.decision [ approve ↦ approved | reject ↦ rejected ];
  reviewed_by = some reviewer_id;
  reviewed_at = some now;
  rejection_reason = dto.rejection_reason;
}

abbrev about : ℕ → ℕ → List (String × MetadataValue) → AuditContext
about user_id id metadata = record {
  user_id = some user_id;
  ip_address = none;
  user_agent = none;
  resource_id = some (by_key id);
  resource_type = some "kyc";
  metadata = metadata;
  is_suspicious = none;
}

abbrev reason_value : Option String → MetadataValue
reason_value none = undefined
reason_value (some reason) = string reason

-- `dto.decision === 'rejected' && !dto.rejectionReason`
abbrev pub lacks_reason : ReviewKycDto → Bool
lacks_reason dto = elim dto.decision [
  | approve ↦ false
  | reject ↦ elim (present dto.rejection_reason) [ none ↦ true | some _ ↦ false ]
]

module _ {Db : Type 0} (t : KycTables Db) where
  -- `id` is the key of a new row.
  save_submission : KycSubmission → Action (App Db) KycSubmission
  save_submission s = do
    on_db (attempt (t.submissions.save s))
    log kyc_submitted (about s.user_id s.id [])
    pure s

  unfoldable pub submit : ℕ → ℕ → SubmitKycDto → Action (App Db) KycSubmission
  unfolding save_submission
  submit id user_id dto s = elim (t.submissions.find_one (λ k. k.user_id == user_id) s.db) [
    | none ↦ save_submission (new_submission id user_id dto) s
    | some existing ↦
        if existing.status != rejected
        then (
          err (
              bad_request (
                "KYC is already "
                <> status_text existing.status
                <> ". Re-submission only allowed after rejection.")),
          s,
        )
        else save_submission (resubmitted dto existing) s
  ]

  unfoldable pub get_my_submission : ℕ → Action Db KycSubmission
  get_my_submission user_id = do
    or_throw (← gets (t.submissions.find_one (λ k. k.user_id == user_id)))
        (not_found "No KYC submission found")

  -- `try { upgradeTier } catch { }` for each account: what a refused upgrade threw is dropped.
  unfoldable pub upgrade_all : List Account → Db → Db
  upgrade_all [] db = db
  upgrade_all (a ∷ accounts) db = upgrade_all accounts (upgrade_tier t.wallets a.id standard db).1

  abbrev pub set_kyc_status : ℕ → KycStatus → Db → Db
  set_kyc_status user_id status =
      t.users.update (λ u. u.id == user_id) (λ u. record u { kyc_status = status })

  -- `findById` loads the accounts of the user, if there is one.
  abbrev pub accounts_of : ℕ → Db → List Account
  accounts_of user_id db = elim (t.users.find_one (λ u. u.id == user_id) db) [
    | none ↦ []
    | some u ↦ t.accounts.find (λ a. a.user_id == user_id) db
  ]

  unfoldable pub upgrade_user_after_kyc : ℕ → Db → Db
  upgrade_user_after_kyc user_id db =
      let db' = set_kyc_status user_id verified db in upgrade_all (accounts_of user_id db') db'

  abbrev settle : ℕ → ℕ → ReviewKycDto → KycSubmission → Action (App Db) (Unit {0})
  settle id reviewer_id dto s = elim dto.decision [
    | approve ↦
        on_db (modify (upgrade_user_after_kyc s.user_id))
        >> log kyc_approved (about s.user_id id (("reviewedBy", key reviewer_id) ∷ []))
    | reject ↦
        on_db (modify (set_kyc_status s.user_id KycStatus.rejected))
        >> log kyc_rejected
            (about s.user_id id (("reason", reason_value dto.rejection_reason) ∷ []))
  ]

  unfoldable pub review : ℕ → ℕ → ℕ → ReviewKycDto → Action (App Db) KycSubmission
  review now id reviewer_id dto = do
    found ←
        or_throw (← gets (λ s. t.submissions.find_one (λ k. k.id == id) s.db))
          (not_found "KYC submission not found")
    throw_if (found.status == approved) (bad_request "Already approved")
    throw_if (lacks_reason dto) (bad_request "Rejection reason is required")
    on_db (attempt (t.submissions.save (reviewed now reviewer_id dto found)))
    settle id reviewer_id dto (reviewed now reviewer_id dto found)
    pure (reviewed now reviewer_id dto found)

  unfoldable pub find_pending : Db → List KycSubmission
  find_pending = t.submissions.find (λ k. k.status == submitted)

  unfoldable pub find_all : Db → List KycSubmission
  find_all = t.submissions.find (λ _. true)
