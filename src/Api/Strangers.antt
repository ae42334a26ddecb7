-- ===== src/Api/Strangers.antt =====
-- What a request without a token comes to.
use vault_api.Prelude.{ℕ, ◌≡◌, refl, arith, false, none}
use vault_api.Http.Exception.{Exception, unauthorized}
use vault_api.Http.Filter.{catch}
use vault_api.Http.Request.{HttpRequest}
use vault_api.Http.Action.{err, Action, ◌>>=◌}
use vault_api.App.{App, on_db}
use vault_api.Auth.Guards.{Access, authorise}
use vault_api.Webhooks.Controller as WebhooksController
use vault_api.Api.{Services, Draws, Endpoint, access, handle, respond, webhooks}

module _ {S A B : Type 0} where
  bind_of_err :
      (m : Action S A) (f : A → Action S B) (s : S) (e : Exception)
      → m s ≡ (err e, s)
      → (m >>= f) s ≡ (err e, s)
  bind_of_err m f s e h = ground arith

module _ {Db : Type 0} (svc : Services Db) where
  authorise_stranger :
      (now : ℕ) (route : Access) (db : Db)
      → route.is_public ≡ false
      → authorise svc.bcrypt svc.users svc.verify now route none db
        ≡ (err (unauthorized "Unauthorized"), db)
  unfolding authorise
  authorise_stranger now route db closed = ground arith

  -- No endpoint but the public ones answers a request without a token.
  pub respond_stranger :
      (d : Draws) (e : Endpoint) (s : App Db)
      → (access e).is_public ≡ false
      → respond svc d none e s ≡ (err (unauthorized "Unauthorized"), s)
  unfolding respond
  respond_stranger d e s closed =
      let refused = authorise_stranger d.now (access e) s.db closed in
      bind_of_err (on_db (authorise svc.bcrypt svc.users svc.verify d.now (access e) none))
        (λ user. handle svc d user e) s (unauthorized "Unauthorized") (ground arith)

  -- The notices of the payment providers, which carry a signature and no token, never reach the
  -- service: whatever is in them, they are answered with status 401, and nothing is changed.
  pub respond_webhooks_stranger :
      (d : Draws) (r : WebhooksController.Route) (s : App Db)
      → (respond svc d none (webhooks r) s ≡ (err (unauthorized "Unauthorized"), s))
        × ((request : HttpRequest) (now : ℕ)
            → (catch request now (unauthorized "Unauthorized")).status_code ≡ 401)
  unfolding access WebhooksController.access catch
  respond_webhooks_stranger d r s = (respond_stranger d (webhooks r) s refl, λ request now. refl)
