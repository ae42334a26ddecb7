-- ===== src/Auth/Refresh.antt =====
-- The life of a refresh token.
use vault_api.Prelude.{
  ℕ, String, ◌≡◌, ◌≢◌, refl, arith, true, false, Option, some, ◌==◌, nat_eq, string_eq, inl, inr,
  Option-cases,
}
use vault_api.Http.Action.{ok}
use vault_api.Orm.{Repository, IsLawful, row}
use vault_api.Orm.Laws.{row-id}
use vault_api.Users.Hashing.{Bcrypt, IsFaithful}
use vault_api.Users.Entity.{User}
use vault_api.Users.{update_refresh_token, deactivate}
use vault_api.Auth.{Jwt, SignsTokens, Tokens, generate_tokens, login, logout, refresh_tokens}

module _ {Db : Type 0} (bcrypt : Bcrypt) (jwt : Jwt) (users : Repository User Db)
    (L : IsLawful (λ u. u.id) users) where
  abbrev user : ℕ → Db → Option User
  user = row (λ u. u.id) users

  session_is_stored :
      (salt token : String) (i : ℕ) (db : Db) (u : User)
      → user i db ≡ some u
      → token ≢ ""
      → user i (update_refresh_token bcrypt users salt i (some token) db).1
        ≡ some (record u { refresh_token = some (bcrypt.hash salt token) })
  unfolding update_refresh_token
  session_is_stored salt token i db u found filled = ground (
    arith,
    L.row-update (λ u. u.id == i) (λ u. record u { refresh_token = some (bcrypt.hash salt token) })
        db i (λ _. refl),
    row-id (λ u. u.id) users L i db u found,
  )

  -- The refresh token that a login hands out can be used for the next refresh, which signs new tokens
  -- for the same user.
  pub refresh_tokens-login :
      (F : IsFaithful bcrypt) (T : SignsTokens jwt) (now later : ℕ) (salt salt' : String) (db : Db)
      (u : User)
      → user u.id db ≡ some u
      → let tokens = generate_tokens jwt now u in
        let db' = (login bcrypt jwt users now salt u db).1 in
        (refresh_tokens bcrypt jwt users later salt' u.id tokens.refresh_token db').0
        ≡ ok (generate_tokens jwt later u)
  unfolding login refresh_tokens
  refresh_tokens-login F T now later salt salt' db u found =
      let token : String = (generate_tokens jwt now u).refresh_token in
      let filled : token ≢ "" = T.refresh_filled now _ in
      ground (
        arith,
        session_is_stored salt token u.id db u found filled,
        F.compare-hash salt token,
        F.hash_filled salt token,
      )

  -- A refresh that returns tokens was for a user whose stored hash accepts the token that it was given,
  -- and the tokens are that user's.
  pub refresh_tokens-ok :
      (now : ℕ) (salt : String) (i : ℕ) (token : String) (db db' : Db) (tokens : Tokens)
      → refresh_tokens bcrypt jwt users now salt i token db ≡ (ok tokens, db')
      → (u : User) × (stored : String) × (user i db ≡ some u)
        × (u.refresh_token ≡ some stored)
        × (bcrypt.compare token stored ≡ true)
        × (tokens ≡ generate_tokens jwt now u)
  unfolding refresh_tokens
  refresh_tokens-ok now salt i token db db' tokens h = elim (Option-cases (user i db)) [
    | inl missing ↦ absurd (ground arith)
    | inr (u, found) ↦ elim (Option-cases u.refresh_token) [
      | inl no_session ↦ absurd (ground arith)
      | inr (stored, session) ↦ (u, stored, found, session, ground arith, ground arith)
    ]
  ]

  -- A logout leaves every user as they were: the refresh token of before goes on working.
  pub refresh_tokens-logout :
      (now : ℕ) (salt salt' : String) (i : ℕ) (token : String) (db : Db)
      → let db' = (logout bcrypt jwt users salt i db).1 in
        ((j : ℕ) → user j db' ≡ user j db)
        × ((refresh_tokens bcrypt jwt users now salt' i token db').0
            ≡ (refresh_tokens bcrypt jwt users now salt' i token db).0)
  unfolding logout refresh_tokens
  refresh_tokens-logout now salt salt' i token db =
      let kept : (j : ℕ) → user j (users.update (λ u. u.id == i) (λ u. u) db) ≡ user j db = λ j.
        elim (Option-cases (user j db)) [
          | inl missing ↦ ground (arith, L.row-update (λ u. u.id == i) (λ u. u) db j (λ _. refl))
          | inr (u, found) ↦ ground (arith, L.row-update (λ u. u.id == i) (λ u. u) db j (λ _. refl))
        ] in
      (kept, ground (arith, kept i))

  -- A deactivated user goes on getting tokens: once the deactivation is stored, a refresh is answered
  -- exactly as it was before.
  pub refresh_tokens-deactivate :
      (now : ℕ) (salt : String) (i : ℕ) (token : String) (db db' : Db) (u : User)
      → deactivate bcrypt users i db ≡ (ok u, db')
      → (u.is_active ≡ false)
        × ((refresh_tokens bcrypt jwt users now salt i token db').0
            ≡ (refresh_tokens bcrypt jwt users now salt i token db).0)
  unfolding deactivate refresh_tokens
  refresh_tokens-deactivate now salt i token db db' u off = elim (Option-cases (user i db)) [
    | inl unknown ↦ absurd (ground arith)
    | inr (v, known) ↦
        let v_is = row-id (λ u. u.id) users L i db v known in
        let after = L.row-save (record v { is_active = false }) db db' i in
        (
          ground arith,
          elim (Option-cases v.refresh_token) [
            | inl no_session ↦ ground (arith, after)
            | inr (stored, session) ↦ ground (arith, after)
          ],
        )
  ]
