-- ===== src/Auth/Guards/Entry.antt =====
-- Who passes the guards.
use vault_api.Prelude.{
  ℕ, String, Bool-cases, true, false, Option, none, some, List, [], ◌∷◌, Among, ◌==◌, nat_eq, ◌≡◌,
  ◌↔◌, refl, arith, inl, inr, Option-cases,
}
use vault_api.Http.Exception.{unauthorized}
use vault_api.Http.Action.{ok, err}
use vault_api.Orm.{Repository, IsLawful, row}
use vault_api.Orm.Laws.{row-id}
use vault_api.Users.Hashing.{Bcrypt}
use vault_api.Users.Entity.{User, UserRole}
use vault_api.Users.{deactivate}
use vault_api.Auth.{Jwt, JwtPayload, Tokens, login}
use vault_api.Auth.Guards.{
  Principal, Access, Verify, principal_of, includes, roles_guard, authorise,
}

module _ {Db : Type 0} (bcrypt : Bcrypt) (users : Repository User Db) (verify : Verify) where
  -- The roles that a route names, if it names any, have the user's among them.
  pub data LetsIn (role : UserRole) : Option (List UserRole) → Type 0 where
    no_roles : LetsIn role none
    named : {roles : List UserRole} → Among role roles → LetsIn role (some roles)

  includes-Among :
      (roles : List UserRole) (role : UserRole) → (includes roles role ≡ true) ↔ Among role roles
  unfolding includes
  includes-Among [] role = ground arith
  includes-Among (r ∷ roles) role = ground (arith, includes-Among roles role)

  -- The guard of roles passes exactly those whom the roles of the route let in.
  passes-LetsIn :
      (required : Option (List UserRole)) (user : Principal) (db : Db)
      → (roles_guard required (some user) db).0 ≡ ok tt
      → LetsIn user.role required
  unfolding roles_guard
  passes-LetsIn none user db passed = no_roles
  passes-LetsIn (some roles) user db passed =
      named ((includes-Among roles user.role).0 (ground arith))

  roles_guard-LetsIn :
      (required : Option (List UserRole)) (user : Principal) (db : Db)
      → LetsIn user.role required
      → roles_guard required (some user) db ≡ (ok tt, db)
  unfolding roles_guard
  roles_guard-LetsIn none user db no_roles = refl
  roles_guard-LetsIn (some roles) user db (named there) =
      let has_role = (includes-Among roles user.role).1 there in ground arith

  -- Who may enter a route, and as whom.
  pub data MayEnter (now : ℕ) (access : Access) (token : Option String) (db : Db)
      : Option Principal → Type 0 where
    as_anyone :
        access.is_public ≡ true → access.required_roles ≡ none → MayEnter now access token db none
    as_user :
        (text : String) (payload : JwtPayload) (u : User)
        → access.is_public ≡ false
        → token ≡ some text
        → verify now text ≡ some payload
        → row (λ u. u.id) users payload.sub db ≡ some u
        → u.is_active ≡ true
        → LetsIn u.role access.required_roles
        → MayEnter now access token db (some (record { id = u.id; email = u.email; role = u.role }))

  -- The guards only read.
  pub authorise-db :
      (now : ℕ) (access : Access) (token : Option String) (db : Db)
      → (authorise bcrypt users verify now access token db).1 ≡ db
  unfolding authorise
  authorise-db now access token db = ground arith

  entered :
      (now : ℕ) (access : Access) (token : Option String) (p : Option Principal) (db : Db)
      → (authorise bcrypt users verify now access token db).0 ≡ ok p
      → MayEnter now access token db p
  unfolding authorise
  entered now access token p db h = elim (Bool-cases access.is_public) [
    | inl open_ ↦ elim (Option-cases access.required_roles) [
      | inl anyone ↦ let who : p ≡ none = ground arith in rw who (as_anyone open_ anyone)
      | inr (roles, asked) ↦ absurd (ground arith)
    ]
    | inr closed ↦ elim (Option-cases token) [
      | inl missing ↦ absurd (ground arith)
      | inr (text, given) ↦ elim (Option-cases (verify now text)) [
        | inl bad ↦ absurd (ground arith)
        | inr (payload, good) ↦ elim (Option-cases (row (λ u. u.id) users payload.sub db)) [
          | inl unknown ↦ absurd (ground arith)
          | inr (u, known) ↦
              let who : p ≡ some (principal_of u) = ground arith in
              let live : u.is_active ≡ true = ground arith in
              let role_lets_in : LetsIn u.role access.required_roles =
                passes-LetsIn access.required_roles (principal_of u) db (ground arith) in
              rw who (as_user text payload u closed given good known live role_lets_in)
        ]
      ]
    ]
  ]

  let_in :
      (now : ℕ) (access : Access) (token : Option String) (p : Option Principal) (db : Db)
      → MayEnter now access token db p
      → (authorise bcrypt users verify now access token db).0 ≡ ok p
  unfolding authorise
  let_in now access token p db (as_anyone open_ anyone) = ground arith
  let_in now access token p db (as_user text payload u closed given good known live role_lets_in) =
      ground (arith, roles_guard-LetsIn access.required_roles (principal_of u) db role_lets_in)

  -- The guards let a request in exactly if the route is public and names no roles, or the request
  -- carries a good token of a user who exists, is active and has a role that the route lets in; the
  -- request then goes on as that user, with the role of the table and not of the token.
  pub authorise-MayEnter :
      (now : ℕ) (access : Access) (token : Option String) (p : Option Principal) (db : Db)
      → ((authorise bcrypt users verify now access token db).0 ≡ ok p)
        ↔ MayEnter now access token db p
  authorise-MayEnter now access token p db =
      (entered now access token p db, let_in now access token p db)

  -- What `generateTokens` signs.
  abbrev pub payload_for : User → JwtPayload
  payload_for u = record { sub = u.id; email = u.email; role = u.role }

  module _ (L : IsLawful (λ u. u.id) users) where
    -- From the moment that a user is deactivated, every token of theirs is refused on every route that
    -- is not public.
    pub authorise-deactivate :
        (id : ℕ) (db db' : Db) (u : User) (now : ℕ) (access : Access) (text : String)
        (payload : JwtPayload)
        → deactivate bcrypt users id db ≡ (ok u, db')
        → verify now text ≡ some payload
        → payload.sub ≡ id
        → access.is_public ≡ false
        → authorise bcrypt users verify now access (some text) db'
          ≡ (err (unauthorized "Account is inactive or does not exist"), db')
    unfolding authorise deactivate
    authorise-deactivate id db db' u now access text payload off good theirs closed =
        elim (Option-cases (row (λ u. u.id) users id db)) [
          | inl unknown ↦ absurd (ground arith)
          | inr (v, known) ↦
              let v_is = row-id (λ u. u.id) users L id db v known in
              let after = L.row-save (record v { is_active = false }) db db' id in
              ground (arith, after)
        ]

    -- Whoever has signed in passes every route that asks for no role, with the token of the login, for
    -- as long as the token is good.
    pub authorise-login :
        (jwt : Jwt) (signed later : ℕ) (salt : String) (u : User) (tokens : Tokens) (db db' : Db)
        (access : Access)
        → row (λ u. u.id) users u.id db ≡ some u
        → u.is_active ≡ true
        → login bcrypt jwt users signed salt u db ≡ (ok (u, tokens), db')
        → verify later (jwt.sign_access signed (payload_for u)) ≡ some (payload_for u)
        → access.is_public ≡ false
        → LetsIn u.role access.required_roles
        → authorise bcrypt users verify later access (some tokens.access_token) db'
          ≡ (ok (some (principal_of u)), db')
    unfolding authorise login
    authorise-login jwt signed later salt u tokens db db' access known live started good closed
          let_ =
        let token : String = jwt.sign_refresh signed (payload_for u) in
        ground (
          arith,
          L.row-update (λ v. v.id == u.id) (λ v. v) db u.id (λ _. refl),
          L.row-update (λ v. v.id == u.id)
              (λ v. record v { refresh_token = some (bcrypt.hash salt token) }) db u.id (λ _. refl),
          good,
          roles_guard-LetsIn access.required_roles (principal_of u) db let_,
        )
