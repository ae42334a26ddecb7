-- ===== src/Beneficiaries/Removal.antt =====
-- Removing a beneficiary, and what comes after.
use vault_api.Prelude.{
  ℕ, ◌≡◌, ◌≢◌, arith, false, ◌&&◌, Option, some, Among, ◌==◌, nat_eq, string_eq, inl, inr,
  Option-cases,
}
use vault_api.Http.Exception.{forbidden, conflict}
use vault_api.Http.Action.{ok, err}
use vault_api.Orm.{Repository, IsLawful, row}
use vault_api.Orm.Laws.{row-id}
use vault_api.Beneficiaries.{
  Beneficiary, CreateBeneficiaryDto, UpdateBeneficiaryDto, create, find_all, find_one, update,
  remove, saved_for,
}

module _ {Db : Type 0} (beneficiaries : Repository Beneficiary Db)
    (L : IsLawful (λ b. b.id) beneficiaries) where
  abbrev beneficiary : ℕ → Db → Option Beneficiary
  beneficiary = row (λ b. b.id) beneficiaries

  -- Nobody but its owner reads, changes or removes a beneficiary.
  pub beneficiary_stranger :
      (i u : ℕ) (dto : UpdateBeneficiaryDto) (db : Db) (b : Beneficiary)
      → beneficiary i db ≡ some b
      → b.user_id ≢ u
      → (find_one beneficiaries i u db ≡ (err (forbidden "Access denied"), db))
        × (update beneficiaries i u dto db ≡ (err (forbidden "Access denied"), db))
        × (remove beneficiaries i u db ≡ (err (forbidden "Access denied"), db))
  unfolding find_one update remove
  beneficiary_stranger i u dto db b found other = (ground arith, ground arith, ground arith)

  remove-row :
      (i u : ℕ) (db db' : Db)
      → remove beneficiaries i u db ≡ (ok tt, db')
      → (b : Beneficiary) × (beneficiary i db ≡ some b)
        × (b.user_id ≡ u)
        × (beneficiary i db' ≡ some (record b { is_active = false }))
  unfolding remove
  remove-row i u db db' h = elim (Option-cases (beneficiary i db)) [
    | inl missing ↦ absurd (ground arith)
    | inr (b, found) ↦
        let key = row-id (λ b. b.id) beneficiaries L i db b found in
        let stored = L.row-save (record b { is_active = false }) db db' i in
        (b, found, ground arith, ground (arith, key, stored))
  ]

  -- A beneficiary that was removed is on no list, and its account number cannot be saved again.
  pub create-remove :
      (i u id : ℕ) (dto : CreateBeneficiaryDto) (db db' : Db) (b : Beneficiary)
      → beneficiary i db ≡ some b
      → b.account_number ≡ dto.account_number
      → remove beneficiaries i u db ≡ (ok tt, db')
      → (create beneficiaries id u dto db'
          ≡ (err (conflict "Beneficiary with this account number already saved"), db'))
        × ((c : Beneficiary) → Among c (find_all beneficiaries u db') → c.id ≢ i)
  unfolding create find_all
  create-remove i u id dto db db' b found same h =
      let (a, a_found, owner, stored) = remove-row i u db db' h in
      let off : Beneficiary = record a { is_active = false } in
      let key = row-id (λ b. b.id) beneficiaries L i db' off stored in
      let unseen =
        L.find_one-none (λ b. b.user_id == u && b.account_number == dto.account_number) db' off in
      (
        elim (Option-cases (saved_for beneficiaries u dto.account_number db')) [
          | inl missing ↦ absurd (ground (arith, unseen missing, key, stored, found, a_found))
          | inr (c, taken) ↦ ground arith
        ],
        λ c m.
            let (listed, c_row) = (L.among-find (λ b. b.user_id == u && b.is_active) db' c).0 m in
            ground (arith, listed, c_row, stored),
      )
