-- ===== src/Auth/Registration.antt =====
-- Who can sign in.
use vault_api.Prelude.{
  ℕ, String, ◌≡◌, ◌≢◌, refl, arith, true, Option, none, some, ◌==◌, nat_eq, string_eq,
  if◌then◌else◌, inl, inr, Option-cases,
}
use vault_api.Http.Action.{ok, Result-cases}
use vault_api.Orm.{Repository, IsLawful, row}
use vault_api.Orm.Laws.{row-id}
use vault_api.Users.Hashing.{Bcrypt, IsFaithful}
use vault_api.Users.Entity.{User, hash_password}
use vault_api.Users.{RegisterDto, new_user, create, find_by_email, update_refresh_token}
use vault_api.Auth.{Jwt, SignsTokens, Tokens, generate_tokens, validate_user, register}

module _ {Db : Type 0} (bcrypt : Bcrypt) (jwt : Jwt) (users : Repository User Db)
    (L : IsLawful (λ u. u.id) users) where
  abbrev user : ℕ → Db → Option User
  user = row (λ u. u.id) users

  -- Whoever is let in has that email, an active account, and a password that bcrypt accepts.
  pub validate_user-ok :
      (email password : String) (db db' : Db) (u : User)
      → validate_user bcrypt jwt users email password db ≡ (ok (some u), db')
      → (user u.id db ≡ some u)
        × (u.email ≡ email)
        × (bcrypt.compare password u.password ≡ true)
        × (u.is_active ≡ true)
        × (db' ≡ db)
  unfolding validate_user
  validate_user-ok email password db db' u h =
      elim (Option-cases (users.find_one (λ u. u.email == email) db)) [
        | inl missing ↦ absurd (ground arith)
        | inr (v, found) ↦
            let (named, stored) = L.find_one-some (λ u. u.email == email) db v found in
            (
              ground (arith, stored),
              ground (arith, named),
              ground arith,
              ground arith,
              ground arith,
            )
      ]

  abbrev registered : ℕ → String → RegisterDto → User
  registered id salt dto = record (new_user id dto) { password = bcrypt.hash salt dto.password }

  -- The only row with an email that no row had before the save of it is the saved one.
  found_by_email :
      (email : String) (new : User) (db db' : Db)
      → users.find_one (λ u. u.email == email) db ≡ none
      → new.email ≡ email
      → ((j : ℕ) → user j db' ≡ (if j == new.id then some new else user j db))
      → users.find_one (λ u. u.email == email) db' ≡ some new
  found_by_email email new db db' free named rows =
      elim (Option-cases (users.find_one (λ u. u.email == email) db')) [
        | inl missing ↦
            absurd
              (ground (arith, L.find_one-none (λ u. u.email == email) db' new missing, rows new.id))
        | inr (b, found) ↦
            let (b_named, stored) = L.find_one-some (λ u. u.email == email) db' b found in
            let old = L.find_one-none (λ u. u.email == email) db b free in
            ground (arith, rows b.id, stored, b_named, old)
      ]

  -- The rows once the user is saved and the session's token is stored.
  session_rows :
      (salt token : String) (new : User) (db mid : Db)
      → users.save new db ≡ ok mid
      → token ≢ ""
      → (j : ℕ)
      → user j (update_refresh_token bcrypt users salt new.id (some token) mid).1 ≡ (
          if j == new.id
          then some (record new { refresh_token = some (bcrypt.hash salt token) })
          else user j db)
  unfolding update_refresh_token
  session_rows salt token new db mid saved filled j =
      let after_save = L.row-save new db mid j saved in
      let updated =
        L.row-update (λ u. u.id == new.id)
          (λ u. record u { refresh_token = some (bcrypt.hash salt token) }) mid j (λ _. refl) in
      elim (Option-cases (user j db)) [
        | inl missing ↦ ground (arith, after_save, updated)
        | inr (u, found) ↦
            ground (arith, after_save, updated, row-id (λ u. u.id) users L j db u found)
      ]

  -- Whoever has registered can sign in with the same email and password.
  pub validate_user-register :
      (F : IsFaithful bcrypt) (T : SignsTokens jwt) (now id : ℕ) (salt salt' : String)
      (dto : RegisterDto) (db db' : Db) (answer : User × Tokens)
      → register bcrypt jwt users now id salt salt' dto db ≡ (ok answer, db')
      → (u : User) × (u.id ≡ id)
        × (validate_user bcrypt jwt users dto.email dto.password db' ≡ (ok (some u), db'))
  unfolding register validate_user create hash_password update_refresh_token find_by_email
  validate_user-register F T now id salt salt' dto db db' answer h =
      let new : User = registered id salt dto in
      let token : String = (generate_tokens jwt now new).refresh_token in
      let filled : token ≢ "" = T.refresh_filled now _ in
      let final : User = record new { refresh_token = some (bcrypt.hash salt' token) } in
      elim (Option-cases (users.find_one (λ u. u.email == dto.email) db)) [
        | inr (other, taken) ↦ absurd (ground arith)
        | inl free ↦ elim (Result-cases (users.save new db)) [
          | inr (e, refused) ↦ absurd (ground arith)
          | inl (mid, saved) ↦
              let rows : (j : ℕ) → user j db' ≡ (if j == id then some final else user j db) =
                λ j. ground (arith, session_rows salt' token new db mid saved filled j) in
              let found : users.find_one (λ u. u.email == dto.email) db' ≡ some final =
                found_by_email dto.email final db db' free refl rows in
              (final, refl, ground (arith, found, F.compare-hash salt dto.password))
        ]
      ]
