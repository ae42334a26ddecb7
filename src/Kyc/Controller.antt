-- ===== src/Kyc/Controller.antt =====
-- `KycController`. The key of a new submission and the time are arguments.
-- Source: src/kyc/kyc.controller.ts.
use vault_api.Prelude.{ℕ, Option, List, [], ◌∷◌}
use vault_api.Http.Action.{Action, ◌>>=◌, gets}
use vault_api.App.{App, on_db}
use vault_api.Users.Entity.{admin, support}
use vault_api.Auth.Guards.{Principal, Access, signed_in, for_roles, user_id_of}
use vault_api.Kyc.Entity.{KycSubmission, SubmitKycDto, ReviewKycDto}
use vault_api.Kyc.{KycTables, get_my_submission, find_pending, find_all}

pub data Route : Type 0 where
  submit : SubmitKycDto → Route
  get_my_status : Route
  get_pending : Route
  get_all : Route
  review : ℕ → ReviewKycDto → Route

unfoldable pub access : Route → Access
access get_pending = for_roles (admin ∷ support ∷ [])
access get_all = for_roles (admin ∷ [])
access (review id dto) = for_roles (admin ∷ [])
access _ = signed_in

abbrev pub Reply : Route → Type 0
Reply get_pending = List KycSubmission
Reply get_all = List KycSubmission
Reply _ = KycSubmission

module _ {Db : Type 0} (t : KycTables Db) where
  unfoldable pub handle : ℕ → ℕ → Option Principal → (route : Route) → Action (App Db) (Reply route)
  handle now new_id user (submit dto) = user_id_of user >>= λ u. vault_api.Kyc.submit t new_id u dto
  handle now new_id user get_my_status = user_id_of user >>= λ u. on_db (get_my_submission t u)
  handle now new_id user get_pending = on_db (gets (find_pending t))
  handle now new_id user get_all = on_db (gets (find_all t))
  handle now new_id user (review id dto) =
      user_id_of user >>= λ u. vault_api.Kyc.review t now id u dto
