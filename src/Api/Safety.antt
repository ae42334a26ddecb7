-- ===== src/Api/Safety.antt =====
-- What holds of the accounts whatever requests arrive.
use vault_api.Prelude.{String, Option, List, [], ◌∷◌, arith, ◌≡◌, inl, inr, nat_eq}
use vault_api.Http.Exception.{Exception}
use vault_api.Http.Action.{ok, err, Result-cases}
use vault_api.App.{App}
use vault_api.Accounts.Sound.{IsSound, create-IsSound, freeze-IsSound, unfreeze-IsSound}
use vault_api.Auth.Guards.{Principal, authorise}
use vault_api.Auth.Guards.Entry.{authorise-db}
use vault_api.Transactions.Ledger.{same-Sound, serve-IsSound}
use vault_api.Api.{Services, Draws, Endpoint, access, handle, respond}
use vault_api.Api.Effect.{
  AreWired, Effect, untouched, account_opened, account_frozen, account_unfrozen, served,
  handle-Effect,
}

-- A request as it arrives, with what the environment draws for it.
pub record Incoming : Type 0 where
  pub draws : Draws
  pub token : Option String
  pub endpoint : Endpoint

module _ {Db : Type 0} (svc : Services Db) where
  -- The state after each request has been answered, with a reply or with an error.
  abbrev pub answer_all : List Incoming → App Db → App Db
  answer_all [] s = s
  answer_all (r ∷ requests) s = answer_all requests (respond svc r.draws r.token r.endpoint s).1

  pub respond-entered :
      (d : Draws) (token : Option String) (e : Endpoint) (s : App Db) (p : Option Principal)
      → (authorise svc.bcrypt svc.users svc.verify d.now (access e) token s.db).0 ≡ ok p
      → (respond svc d token e s).1 ≡ (handle svc d p e s).1
  unfolding respond
  respond-entered d token e s p h =
      ground (arith, authorise-db svc.bcrypt svc.users svc.verify d.now (access e) token s.db)

  pub respond-refused :
      (d : Draws) (token : Option String) (e : Endpoint) (s : App Db) (x : Exception)
      → (authorise svc.bcrypt svc.users svc.verify d.now (access e) token s.db).0 ≡ err x
      → (respond svc d token e s).1 ≡ s
  unfolding respond
  respond-refused d token e s x h =
      ground (arith, authorise-db svc.bcrypt svc.users svc.verify d.now (access e) token s.db)

  module _ (W : AreWired svc) where
    abbrev Sound : Db → Type 0
    Sound = IsSound svc.tables.accounts W.tables.accounts

    Effect-Sound :
        (d : Draws) (user : Option Principal) (s s' : App Db)
        → Effect svc d user s s'
        → Sound s.db
        → Sound s'.db
    Effect-Sound d user s s' (untouched same) sound =
        same-Sound svc.tables W.tables s.db s'.db same sound
    Effect-Sound d user s s' (account_opened u dto a made) sound =
        create-IsSound svc.tables.accounts W.tables.accounts d.id d.account_number u dto s.db s'.db
          a made sound
    Effect-Sound d user s s' (account_frozen i u a made) sound =
        freeze-IsSound svc.tables.accounts W.tables.accounts i u s.db s'.db a made sound
    Effect-Sound d user s s' (account_unfrozen i a made) sound =
        unfreeze-IsSound svc.tables.accounts W.tables.accounts i s.db s'.db a made sound
    Effect-Sound d user s s' (served r asker done) sound =
        rw done (serve-IsSound svc.tables W.tables r s sound)

    respond-Sound :
        (d : Draws) (token : Option String) (e : Endpoint) (s : App Db)
        → Sound s.db
        → Sound (respond svc d token e s).1.db
    respond-Sound d token e s sound =
        elim (Result-cases
          (authorise svc.bcrypt svc.users svc.verify d.now (access e) token s.db).0) [
            | inl (p, entered) ↦
                rw (respond-entered d token e s p entered)
                  (Effect-Sound d p s (handle svc d p e s).1 (handle-Effect svc W d p e s) sound)
            | inr (x, refused) ↦ rw (respond-refused d token e s x refused) sound
          ]

    -- Whatever requests arrive at the application, at any endpoint, with any token or with none, and
    -- however they end: if no balance was negative and every ledger balance equal to its balance, that
    -- is still so.
    pub answer_all-IsSound :
        (requests : List Incoming) (s : App Db)
        → IsSound svc.tables.accounts W.tables.accounts s.db
        → IsSound svc.tables.accounts W.tables.accounts (answer_all requests s).db
    answer_all-IsSound [] s sound = sound
    answer_all-IsSound (r ∷ requests) s sound =
        answer_all-IsSound requests (respond svc r.draws r.token r.endpoint s).1
          (respond-Sound r.draws r.token r.endpoint s sound)
