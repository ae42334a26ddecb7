-- ===== src/Api/Exchange/Safety.antt =====
-- Lists of requests over HTTP.
use vault_api.Prelude.{
  Bool, false, List, [], ◌∷◌, ◌≡◌, inl, inr, refl, arith, Bool-cases, if◌then◌else◌,
}
use vault_api.Http.Request.{HttpRequest}
use vault_api.App.{App}
use vault_api.Accounts.Sound.{IsSound}
use vault_api.Api.{Services, Draws, Endpoint, respond}
use vault_api.Api.Effect.{AreWired}
use vault_api.Api.Safety.{Incoming, answer_all, answer_all-IsSound}
use vault_api.Config.{Limit}
use vault_api.Api.Limits.{limit_of}
use vault_api.Api.Exchange.{Arrival, exchange}
use vault_api.Api.Exchange.Outcome.{
  stopped, turned_away, over_limit, handled, course, exchange-respond,
}

-- A request with what the environment draws for it.
pub record Sent : Type 0 where
  pub draws : Draws
  pub arrival : Arrival
  pub endpoint : Endpoint

module _ {Db : Type 0} (svc : Services Db) (within : Limit → HttpRequest → Bool)
    (configured : Limit) where
  abbrev pub exchange_all : List Sent → App Db → App Db
  exchange_all [] s = s
  exchange_all (r ∷ requests) s =
      exchange_all requests (exchange svc within configured r.draws r.arrival r.endpoint s).1

  -- The requests within their limits, without what HTTP adds.
  abbrev pub admitted : List Sent → List Incoming
  admitted [] = []
  admitted (r ∷ requests) =
      let rest = admitted requests in
      if within (limit_of configured r.endpoint) r.arrival.request
      then record { draws = r.draws; token = r.arrival.request.token; endpoint = r.endpoint } ∷ rest
      else rest

  exchange_kept :
      (d : Draws) (a : Arrival) (e : Endpoint) (s : App Db)
      → within (limit_of configured e) a.request ≡ false
      → (exchange svc within configured d a e s).1 ≡ s
  exchange_kept d a e s over = elim (course svc within configured d a e s) [
    | stopped x refused is_done is_answer ↦ rw is_done refl
    | over_limit user entered over' is_done ↦ rw is_done refl
    | turned_away user x entered fits guarded is_done is_handled is_answer ↦ rw is_done refl
    | handled user entered fits free is_done is_answer ↦ absurd (ground arith)
  ]

  -- Over HTTP a list of requests does what the guards and the controllers do for those of them that
  -- are within their limits, one after the other, and the others do nothing: neither the throttler nor
  -- the guard of a route, the interceptors or the filter leave anything behind.
  pub exchange_all-answer_all :
      (requests : List Sent) (s : App Db)
      → exchange_all requests s ≡ answer_all svc (admitted requests) s
  exchange_all-answer_all [] s = refl
  exchange_all-answer_all (r ∷ requests) s =
      elim (Bool-cases (within (limit_of configured r.endpoint) r.arrival.request)) [
        | inl fits ↦
            let same = exchange-respond svc within configured r.draws r.arrival r.endpoint s fits in
            rw (fits, same)
              (exchange_all-answer_all requests
                (respond svc r.draws r.arrival.request.token r.endpoint s).1)
        | inr over ↦
            rw (over, exchange_kept r.draws r.arrival r.endpoint s over)
              (exchange_all-answer_all requests s)
      ]

  -- Whatever requests arrive over HTTP, at any endpoint, with any token or with none, and however they
  -- end: if no balance was negative and every ledger balance equal to its balance, that is still so.
  pub exchange_all-IsSound :
      (W : AreWired svc) (requests : List Sent) (s : App Db)
      → IsSound svc.tables.accounts W.tables.accounts s.db
      → IsSound svc.tables.accounts W.tables.accounts (exchange_all requests s).db
  exchange_all-IsSound W requests s sound =
      rw (exchange_all-answer_all requests s) (answer_all-IsSound svc W (admitted requests) s sound)
