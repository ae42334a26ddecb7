-- ===== src/TransactionPin/Change.antt =====
-- Setting and changing a PIN.
use vault_api.Prelude.{
  ℕ, String, ◌≡◌, refl, arith, true, none, some, ◌==◌, nat_eq, inl, inr, Option-cases,
}
use vault_api.Prelude.Dict.{remove, get-remove}
use vault_api.Http.Action.{ok}
use vault_api.App.{App}
use vault_api.Orm.{Repository, IsLawful, row}
use vault_api.Users.Hashing.{Bcrypt, IsFaithful}
use vault_api.Users.Entity.{User}
use vault_api.TransactionPin.Entity.{ChangePinDto}
use vault_api.TransactionPin.{state_of, verify_pin, set_pin, change_pin, has_pin}

module _ {Db : Type 0} (show : ℕ → String) (bcrypt : Bcrypt) (users : Repository User Db)
    (L : IsLawful (λ u. u.id) users) (F : IsFaithful bcrypt) (salt : String) (user_id : ℕ) where
  with_pin : String → User → User
  with_pin hashed u = record u { transaction_pin = some hashed }

  pin_is_stored :
      (hashed : String) (db : Db) (u : User)
      → row (λ u. u.id) users user_id db ≡ some u
      → row
          (λ u. u.id)
          users
          user_id
          (users.update (λ u. u.id == user_id) (λ u. record u { transaction_pin = some hashed }) db)
        ≡ some (record u { transaction_pin = some hashed })
  pin_is_stored hashed db u found = ground (
    arith,
    L.row-update (λ u. u.id == user_id) (λ u. record u { transaction_pin = some hashed }) db user_id
        (λ _. refl),
    L.find_one-some (λ u. u.id == user_id) db u found,
  )

  -- Once a PIN is set, and if no wrong PIN is counted for the user, that PIN is accepted.
  pub verify_pin-set_pin :
      (pin : String) (now later : ℕ) (s s' : App Db)
      → set_pin show bcrypt users salt user_id (record { pin = pin }) s ≡ (ok tt, s')
      → state_of user_id s ≡ none
      → ((verify_pin show bcrypt users user_id (record { pin = pin }) now later s').0 ≡ ok tt)
        × (has_pin show bcrypt users user_id s'.db ≡ true)
  unfolding set_pin verify_pin has_pin
  verify_pin-set_pin pin now later s s' h fresh =
      elim (Option-cases (row (λ u. u.id) users user_id s.db)) [
        | inl missing ↦ absurd (ground arith)
        | inr (u, found) ↦
            let stored = pin_is_stored (bcrypt.hash salt pin) s.db u found in
            (
              ground (arith, stored, F.compare-hash salt pin, F.hash_filled salt pin),
              ground (arith, stored, F.hash_filled salt pin),
            )
      ]

  -- Once a PIN is changed, the new one is accepted at any time: the wrong ones before are forgotten.
  pub verify_pin-change_pin :
      (dto : ChangePinDto) (now later after after' : ℕ) (s s' : App Db)
      → change_pin show bcrypt users salt user_id dto now later s ≡ (ok tt, s')
      → (verify_pin show bcrypt users user_id (record { pin = dto.new_pin }) after after' s').0
        ≡ ok tt
  unfolding change_pin verify_pin
  verify_pin-change_pin dto now later after after' s s' h =
      elim (Option-cases (row (λ u. u.id) users user_id s.db)) [
        | inl missing ↦ absurd (ground arith)
        | inr (u, found) ↦ ground (
          arith,
          pin_is_stored (bcrypt.hash salt dto.new_pin) s.db u found,
          F.compare-hash salt dto.new_pin,
          F.hash_filled salt dto.new_pin,
          get-remove user_id user_id s.attempts,
          get-remove user_id user_id (remove user_id s.attempts),
        )
      ]
