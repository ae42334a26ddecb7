-- ===== src/Kyc/Entity.antt =====
-- The entity `KycSubmission`, its enumerations and the request bodies. The time of creation orders
-- lists only, and is left out with the other columns that no method writes.
-- Source: src/kyc/entities/kyc-submission.entity.ts, src/kyc/dto/kyc.dto.ts.
use vault_api.Prelude.{ℕ, String, Option, Eq}

pub data DocumentType : Type 0 where
  nin bvn intl_passport drivers_license voters_card : DocumentType

pub data KycSubmissionStatus : Type 0 where
  draft submitted under_review approved rejected : KycSubmissionStatus

unfoldable pub KycSubmissionStatus-discrete : Discrete KycSubmissionStatus
KycSubmissionStatus-discrete = hlevel

instance abbrev pub submission_status_eq : Eq KycSubmissionStatus
submission_status_eq = record { dec = KycSubmissionStatus-discrete }

-- The text of a status, as it stands in a message.
unfoldable pub status_text : KycSubmissionStatus → String
status_text draft = "draft"
status_text submitted = "submitted"
status_text under_review = "under_review"
status_text approved = "approved"
status_text rejected = "rejected"

pub record SubmitKycDto : Type 0 where
  pub document_type : DocumentType
  pub document_number : String
  pub document_front_url : Option String
  pub document_back_url : Option String
  pub selfie_url : Option String

pub data Decision : Type 0 where
  approve reject : Decision

pub record ReviewKycDto : Type 0 where
  pub decision : Decision
  pub rejection_reason : Option String

pub record KycSubmission : Type 0 where
  pub id : ℕ
  pub user_id : ℕ
  pub document_type : DocumentType
  pub document_number : String
  pub document_front_url : Option String
  pub document_back_url : Option String
  pub selfie_url : Option String
  pub status : KycSubmissionStatus
  pub rejection_reason : Option String
  pub reviewed_by : Option ℕ
  pub reviewed_at : Option ℕ
