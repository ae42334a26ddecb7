-- ===== src/Beneficiaries/Controller.antt =====
-- `BeneficiariesController`. The key of a new row is an argument.
-- Source: src/beneficiaries/beneficiaries.controller.ts.
use vault_api.Prelude.{ℕ, Option, List}
use vault_api.Http.Action.{Action, ◌>>=◌, gets}
use vault_api.Orm.{Repository}
use vault_api.Auth.Guards.{Principal, Access, signed_in, user_id_of}
use vault_api.Beneficiaries.{Beneficiary, CreateBeneficiaryDto, UpdateBeneficiaryDto}

pub data Route : Type 0 where
  create : CreateBeneficiaryDto → Route
  find_all : Route
  find_one : ℕ → Route
  update : ℕ → UpdateBeneficiaryDto → Route
  remove : ℕ → Route

unfoldable pub access : Route → Access
access _ = signed_in

abbrev pub Reply : Route → Type 0
Reply find_all = List Beneficiary
Reply (remove id) = Unit {0}
Reply _ = Beneficiary

module _ {Db : Type 0} (beneficiaries : Repository Beneficiary Db) where
  unfoldable pub handle : ℕ → Option Principal → (route : Route) → Action Db (Reply route)
  handle new_id user (create dto) =
      user_id_of user >>= λ u. vault_api.Beneficiaries.create beneficiaries new_id u dto
  handle new_id user find_all =
      user_id_of user >>= λ u. gets (vault_api.Beneficiaries.find_all beneficiaries u)
  handle new_id user (find_one id) =
      user_id_of user >>= λ u. vault_api.Beneficiaries.find_one beneficiaries id u
  handle new_id user (update id dto) =
      user_id_of user >>= λ u. vault_api.Beneficiaries.update beneficiaries id u dto
  handle new_id user (remove id) =
      user_id_of user >>= λ u. vault_api.Beneficiaries.remove beneficiaries id u
