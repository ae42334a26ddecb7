-- ===== src/Api/Owners.antt =====
-- Whose request can make an account poorer.
use mathlib.Core.Option
use vault_api.Prelude.{
  ℕ, String, Bool-cases, Option, some, none, arith, ◌≡◌, ◌≢◌, refl, ap, ◌∙◌, ◌⊎◌, inl, inr,
  Option-cases, ◌==◌, nat_eq, true, if◌then◌else◌,
}
use vault_api.Prelude.Int.{◌≤ℤ◌}
use vault_api.Http.Action.{Result-cases}
use vault_api.App.{App}
use vault_api.Orm.{row}
use vault_api.Accounts.Entity.{Account, AccountStatus, active, frozen}
use vault_api.Accounts.Ownership.{create-ok, freeze-ok, unfreeze-ok}
use vault_api.Accounts.Debit.{account}
use vault_api.Auth.{JwtPayload}
use vault_api.Users.Entity.{User}
use vault_api.Auth.Guards.{Principal, Access, authorise}
use vault_api.Auth.Guards.Entry.{MayEnter, as_anyone, as_user, authorise-MayEnter}
use vault_api.Transactions.Ledger.{
  Request, transfer_request, deposit_request, withdraw_request, serve,
}
use vault_api.Transactions.Bank.{holding, books, accepts}
use vault_api.Transactions.Bank.Refinement.{serve-Step}
use vault_api.Transactions.Bank.Owners.{IsBy, NoPoorer, Step-NoPoorer}
use vault_api.Api.{Services, Draws, Endpoint, access, handle, respond}
use vault_api.Api.Effect.{
  AreWired, IsFor, Effect, untouched, account_opened, account_frozen, account_unfrozen, served,
  handle-Effect,
}
use vault_api.Api.Safety.{respond-entered, respond-refused}

module _ {Db : Type 0} (svc : Services Db) where
  -- The account is there, the same user's, with no smaller a balance.
  abbrev pub StillHolds : Account → Db → Type 0
  StillHolds a db =
      (a' : Account) × (account svc.tables.accounts a.id db ≡ some a')
      × (a'.user_id ≡ a.user_id)
      × (a.balance ≤ℤ a'.balance)

  -- A good token of an active user whose key this is.
  pub record IsSignedBy (owner now : ℕ) (token : Option String) (db : Db) : Type 0 where
    pub text : String
    pub payload : JwtPayload
    pub user : User
    pub carried : token ≡ some text
    pub good : svc.verify now text ≡ some payload
    pub found : row (λ u. u.id) svc.users payload.sub db ≡ some user
    pub live : user.is_active ≡ true
    pub is_owner : user.id ≡ owner

  MayEnter-IsSignedBy :
      (now : ℕ) (route : Access) (token : Option String) (db : Db) (p : Option Principal)
      (q : Principal) (owner : ℕ)
      → MayEnter svc.bcrypt svc.users svc.verify now route token db p
      → p ≡ some q
      → q.id ≡ owner
      → IsSignedBy owner now token db
  MayEnter-IsSignedBy now route token db none q owner (as_anyone open_ anyone) is_q is_owner =
      absurd (ground arith)
  MayEnter-IsSignedBy now route token db p q owner
        (as_user text payload u closed carried good found live lets) is_q is_owner =
      record {
        text = text;
        payload = payload;
        user = u;
        carried = carried;
        good = good;
        found = found;
        live = live;
        is_owner = ground arith;
      }

  StillHolds-same :
      (a a' : Account) (db : Db)
      → account svc.tables.accounts a.id db ≡ some a'
      → a'.user_id ≡ a.user_id
      → a'.balance ≡ a.balance
      → StillHolds a db
  StillHolds-same a a' db there owner same = (a', there, owner, ground arith)

  -- A change of status does not touch the balance.
  StillHolds-with_status :
      (a c : Account) (status : AccountStatus) (i : ℕ) (db db' : Db)
      → account svc.tables.accounts a.id db ≡ some a
      → account svc.tables.accounts i db ≡ some c
      → account svc.tables.accounts a.id db' ≡ (
          if a.id == i
          then some (record c { status = status })
          else account svc.tables.accounts a.id db)
      → StillHolds a db'
  StillHolds-with_status a c status i db db' found was after = elim (Bool-cases (a.id == i)) [
    | inl same ↦
        StillHolds-same a (record c { status = status }) db' (ground arith) (ground arith)
          (ground arith)
    | inr other ↦ StillHolds-same a a db' (ground arith) refl refl
  ]

  StillHolds-NoPoorer :
      (a : Account) (db : Db) → NoPoorer a.id (holding a) (books svc.tables db) → StillHolds a db
  StillHolds-NoPoorer a db (h', held, owner, funds) =
      elim (Option-cases (account svc.tables.accounts a.id db)) [
        | inl gone ↦ absurd (ground arith)
        | inr (a', there) ↦
            let same : h' ≡ holding a' = ground arith in (a', there, ground arith, ground arith)
      ]

  module _ (W : AreWired svc) where
    -- A request that was not the owner's leaves the owner no poorer.
    serve-StillHolds :
        (r : Request) (s : App Db) (a : Account)
        → account svc.tables.accounts a.id s.db ≡ some a
        → ¬ (IsBy a.user_id r)
        → StillHolds a (serve svc.tables r s).db
    serve-StillHolds r s a found other =
        let after : Db = (serve svc.tables r s).db in
        StillHolds-NoPoorer a after (
          Step-NoPoorer r (accepts svc.tables r s) (books svc.tables s.db) (books svc.tables after)
            a.id (holding a) (serve-Step svc.tables W.tables r s) (ap (Option.map holding) found)
            other)

    -- A user may have asked for a request or not.
    IsBy-cases :
        (user : Option Principal) (r : Request) (owner : ℕ)
        → IsFor user r
        → ((p : Principal) × (user ≡ some p) × (p.id ≡ owner)) ⊎ (¬ (IsBy owner r))
    IsBy-cases user (transfer_request draw u dto key) owner (p, is_p, is_u) =
        elim (Bool-cases (u == owner)) [
          | inl same ↦ inl (p, is_p, ground arith)
          | inr other ↦ inr λ (h : u ≡ owner). ground arith
        ]
    IsBy-cases user (deposit_request draw dto) owner asker = inr λ h. h
    IsBy-cases user (withdraw_request draw u dto key) owner (p, is_p, is_u) =
        elim (Bool-cases (u == owner)) [
          | inl same ↦ inl (p, is_p, ground arith)
          | inr other ↦ inr λ (h : u ≡ owner). ground arith
        ]

    Effect-StillHolds :
        (d : Draws) (user : Option Principal) (s s' : App Db) (a : Account)
        → Effect svc d user s s'
        → account svc.tables.accounts a.id s.db ≡ some a
        → d.id ≢ a.id
        → StillHolds a s'.db ⊎ ((p : Principal) × (user ≡ some p) × (p.id ≡ a.user_id))
    Effect-StillHolds d user s s' a (untouched same) found other_key =
        inl (StillHolds-same a a s'.db (same a.id ∙ found) refl refl)
    Effect-StillHolds d user s s' a (account_opened u dto b made) found other_key =
        let after =
          create-ok svc.tables.accounts W.tables.accounts d.id u d.account_number dto s.db s'.db b
            made a.id in
        inl (StillHolds-same a a s'.db (ground (arith, after)) refl refl)
    Effect-StillHolds d user s s' a (account_frozen i u b made) found other_key =
        let (c, was, owner, after) =
          freeze-ok svc.tables.accounts W.tables.accounts i u s.db s'.db b made in
        inl (StillHolds-with_status a c frozen i s.db s'.db found was (after a.id))
    Effect-StillHolds d user s s' a (account_unfrozen i b made) found other_key =
        let (c, was, after) =
          unfreeze-ok svc.tables.accounts W.tables.accounts i s.db s'.db b made in
        inl (StillHolds-with_status a c active i s.db s'.db found was (after a.id))
    Effect-StillHolds d user s s' a (served r asker done) found other_key =
        elim (IsBy-cases user r a.user_id asker) [
          | inl theirs ↦ inr theirs
          | inr other ↦ inl (rw done (serve-StillHolds r s a found other))
        ]

    -- Nobody can make an account poorer but its owner: after any request, at any endpoint, the account
    -- is still there, the same user's, and holds at least what it held, or else the request carried a
    -- good token of the owner, who exists and is active. The key that the database draws for a new row
    -- is not this account's.
    pub respond-StillHolds :
        (d : Draws) (token : Option String) (e : Endpoint) (s : App Db) (a : Account)
        → account svc.tables.accounts a.id s.db ≡ some a
        → d.id ≢ a.id
        → StillHolds a (respond svc d token e s).1.db ⊎ IsSignedBy a.user_id d.now token s.db
    respond-StillHolds d token e s a found other_key =
        elim (Result-cases
          (authorise svc.bcrypt svc.users svc.verify d.now (access e) token s.db).0) [
            | inl (p, entered) ↦
                elim (Effect-StillHolds d p s (handle svc d p e s).1 a (handle-Effect svc W d p e s)
                  found other_key) [
                    | inl holds ↦ inl (rw (respond-entered svc d token e s p entered) holds)
                    | inr (q, is_q, owner) ↦ inr (
                        MayEnter-IsSignedBy d.now (access e) token s.db p q a.user_id
                          ((authorise-MayEnter svc.bcrypt svc.users svc.verify d.now (access e)
                              token p s.db).0
                            entered)
                          is_q owner)
                  ]
            | inr (x, turned_away) ↦ inl (
                rw (respond-refused svc d token e s x turned_away)
                  (StillHolds-same a a s.db found refl refl))
          ]
