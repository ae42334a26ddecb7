-- ===== src/Api/Exchange/Trace.antt =====
-- How every response can be traced.
-- Source: src/app.module.ts, src/common/interceptors/correlation-id.interceptor.ts,
-- src/common/middleware/request-logger.middleware.ts.
use vault_api.Prelude.{
  String, Bool, true, false, Option, none, some, ◌≡◌, ◌⊎◌, inl, inr, refl, arith, ◌≤◌, string_eq,
}
use vault_api.Http.Exception.{Exception}
use vault_api.Http.Request.{HttpRequest}
use vault_api.Http.Filter.{status, catch}
use vault_api.App.{App}
use vault_api.Auth.Guards.{Principal}
use vault_api.Api.{Services, Draws, Endpoint, handle}
use vault_api.Config.{Limit}
use vault_api.Api.Limits.{limit_of}
use vault_api.Api.Exchange.{Arrival, refuse, route_guard, exchange}
use vault_api.Api.Exchange.Outcome.{stopped, over_limit, turned_away, handled, course}
use vault_api.Api.Exchange.Answered.{Enters, entrance}
use vault_api.Api.Exchange.Marks.{
  IsIdOf, Sends, tracked, correlate-IsIdOf, status-leq, settled-Sends,
}

module _ {Db : Type 0} (svc : Services Db) (within : Limit → HttpRequest → Bool)
    (configured : Limit) (d : Draws) (a : Arrival) (e : Endpoint) (s : App Db) where
  -- The request comes to its handler.
  abbrev pub Reaches : Type 0
  Reaches =
      (p : Option Principal) × Enters svc within configured d a e s p
      × (within (limit_of configured e) a.request ≡ true)
      × (route_guard svc d e s ≡ none)

  -- Nobody is let in, or it is one too many, or the guard of the route throws.
  abbrev pub IsStopped : Type 0
  IsStopped =
      ((p : Option Principal) → ¬ (Enters svc within configured d a e s p))
      ⊎ (within (limit_of configured e) a.request ≡ false)
      ⊎ ((x : Exception) × (route_guard svc d e s ≡ some x))

  -- The response to a request that comes to its handler carries the id that the client has sent, or
  -- else the one that was drawn, unless it is empty, whether the handler returns or throws. The response
  -- to a request that is stopped before carries none, has a status from 400 on, and nothing has changed.
  pub exchange_traced :
      let done = exchange svc within configured d a e s in
      (Reaches × ((id : String) × IsIdOf a id × Sends id done.0.response.correlation))
      ⊎ (IsStopped
          × (done.0.response.correlation ≡ none)
          × (400 ≤ done.0.response.status_code)
          × (done.1 ≡ s))
  unfolding refuse catch
  exchange_traced = elim (course svc within configured d a e s) [
    | stopped x refused is_done is_answer ↦
        let nobody : (p : Option Principal) → ¬ (Enters svc within configured d a e s p) =
          λ p enters. ground (arith, (entrance svc within configured d a e s p).1 enters) in
        let low : 400 ≤ status x = status-leq x in rw is_done (inr (inl nobody, refl, low, refl))
    | over_limit p entered over is_done ↦
        let low : 400 ≤ 429 = omega arith in rw is_done (inr (inr (inl over), refl, low, refl))
    | turned_away p x entered fits guarded is_done is_handled is_answer ↦
        let low : 400 ≤ status x = status-leq x in
        rw is_done (inr (inr (inr (x, guarded)), refl, low, refl))
    | handled p entered fits free is_done is_answer ↦
        let reached : Reaches =
          (p, (entrance svc within configured d a e s p).0 entered, fits, free) in
        rw is_done (
          inl (
            reached,
            (
              (tracked a).correlation_id,
              correlate-IsIdOf a,
              settled-Sends a e (handle svc d p e s).0,
            ),
          ))
  ]
