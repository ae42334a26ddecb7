-- ===== src/Api/Exchange/Outcome.antt =====
-- What a request over HTTP comes to, compared with the answer of its controller.
use vault_api.Prelude.{
  String, Bool, true, false, Option, none, some, [], ◌≡◌, inl, inr, refl, arith, Bool-cases,
  Option-cases,
}
use vault_api.Http.Exception.{Exception, too_many_requests}
use vault_api.Http.Action.{Result, ok, err, Result-cases}
use vault_api.Http.Request.{HttpRequest, correlate}
use vault_api.App.{App}
use vault_api.Auth.Controller as AuthController
use vault_api.Auth.Guards.{Principal, authorise, local_guard}
use vault_api.Auth.Guards.Entry.{authorise-db}
use vault_api.Transactions.Controller as TransactionsController
use vault_api.Api.{Services, Draws, Endpoint, auth, transactions, access, Reply, handle, respond}
use vault_api.Api.Effect.{can_activate-db}
use vault_api.Config.{Limit}
use vault_api.Api.Limits.{limit_of}
use vault_api.Api.Exchange.{Arrival, Exchange, refuse, settled, route_guard, exchange}

module _ {Db : Type 0} (svc : Services Db) where
  local_guard-db :
      (email password : String) (db : Db)
      → (local_guard svc.bcrypt svc.users svc.jwt email password db).1 ≡ db
  unfolding local_guard vault_api.Auth.Guards.validate_local vault_api.Auth.validate_user
  local_guard-db email password db = ground arith

  -- A guard of a route that throws leaves the state, and the handler throws the same.
  route_guard-handle :
      (d : Draws) (user : Option Principal) (e : Endpoint) (s : App Db) (x : Exception)
      → route_guard svc d e s ≡ some x
      → handle svc d user e s ≡ (err x, s)
  unfolding route_guard handle TransactionsController.handle AuthController.handle
  route_guard-handle d user (transactions (TransactionsController.transfer header dto)) s x h =
      ground (arith, can_activate-db svc d.now header s.db)
  route_guard-handle d user (transactions (TransactionsController.withdraw header dto)) s x h =
      ground (arith, can_activate-db svc d.now header s.db)
  route_guard-handle d user (auth (AuthController.login email password)) s x h =
      ground (arith, local_guard-db email password s.db)
  route_guard-handle d user e s x h = absurd (ground arith)

  module _ (within : Limit → HttpRequest → Bool) (configured : Limit) (d : Draws) (a : Arrival)
      (e : Endpoint) (s : App Db) where
    abbrev entry : Result (Option Principal)
    entry = (authorise svc.bcrypt svc.users svc.verify d.now (access e) a.request.token s.db).0

    abbrev away : Exception → Exchange (Reply e)
    away = refuse a (correlate a.generated a.received a.request) none []

    abbrev done : Exchange (Reply e) × App Db
    done = exchange svc within configured d a e s

    abbrev answer : Result (Reply e) × App Db
    answer = respond svc d a.request.token e s

    same_db :
        (authorise svc.bcrypt svc.users svc.verify d.now (access e) a.request.token s.db).1 ≡ s.db
    same_db = authorise-db svc.bcrypt svc.users svc.verify d.now (access e) a.request.token s.db

    exchange_refused :
        (x : Exception) → entry ≡ err x → (done ≡ (away x, s)) × (answer ≡ (err x, s))
    unfolding exchange respond
    exchange_refused x refused = (ground (arith, same_db), ground (arith, same_db))

    exchange_over_limit :
        (user : Option Principal)
        → entry ≡ ok user
        → within (limit_of configured e) a.request ≡ false
        → done ≡ (away (too_many_requests "ThrottlerException: Too Many Requests"), s)
    unfolding exchange
    exchange_over_limit user entered over = ground (arith, same_db)

    respond_handles : (user : Option Principal) → entry ≡ ok user → answer ≡ handle svc d user e s
    unfolding respond
    respond_handles user entered = ground (arith, same_db)

    exchange_guarded :
        (user : Option Principal) (x : Exception)
        → entry ≡ ok user
        → within (limit_of configured e) a.request ≡ true
        → route_guard svc d e s ≡ some x
        → done ≡ (away x, s)
    unfolding exchange
    exchange_guarded user x entered fits stopped = ground (arith, same_db)

    exchange_handled :
        (user : Option Principal)
        → entry ≡ ok user
        → within (limit_of configured e) a.request ≡ true
        → route_guard svc d e s ≡ none
        → let r = handle svc d user e s in
          done ≡ (settled a (correlate a.generated a.received a.request) none e r.0, r.1)
    unfolding exchange
    exchange_handled user entered fits free = ground (arith, same_db)

    -- The ways that a request can take: it is stopped at the guards of the module, by the throttler or at
    -- the guard of the route, or comes to the handler.
    pub data Course : Type 0 where
      stopped : (x : Exception) → entry ≡ err x → done ≡ (away x, s) → answer ≡ (err x, s) → Course
      over_limit :
          (user : Option Principal)
          → entry ≡ ok user
          → within (limit_of configured e) a.request ≡ false
          → done ≡ (away (too_many_requests "ThrottlerException: Too Many Requests"), s)
          → Course
      turned_away :
          (user : Option Principal) (x : Exception)
          → entry ≡ ok user
          → within (limit_of configured e) a.request ≡ true
          → route_guard svc d e s ≡ some x
          → done ≡ (away x, s)
          → handle svc d user e s ≡ (err x, s)
          → answer ≡ handle svc d user e s
          → Course
      handled :
          (user : Option Principal)
          → entry ≡ ok user
          → within (limit_of configured e) a.request ≡ true
          → route_guard svc d e s ≡ none
          → done ≡ (
            settled a (correlate a.generated a.received a.request) none e (handle svc d user e s).0,
            (handle svc d user e s).1,
          )
          → answer ≡ handle svc d user e s
          → Course

    pub course : Course
    course = elim (Result-cases entry) [
      | inr (x, refused) ↦
          stopped x refused (exchange_refused x refused).0 (exchange_refused x refused).1
      | inl (user, entered) ↦ elim (Bool-cases (within (limit_of configured e) a.request)) [
        | inr over ↦ over_limit user entered over (exchange_over_limit user entered over)
        | inl fits ↦ elim (Option-cases (route_guard svc d e s)) [
          | inl free ↦
              handled user entered fits free (exchange_handled user entered fits free)
                (respond_handles user entered)
          | inr (x, guarded) ↦
              turned_away user x entered fits guarded (exchange_guarded user x entered fits guarded)
                (route_guard-handle d user e s x guarded) (respond_handles user entered)
        ]
      ]
    ]

    -- A request within its limit leaves the state that the guards and the controller leave.
    pub exchange-respond :
        within (limit_of configured e) a.request ≡ true
        → (exchange svc within configured d a e s).1 ≡ (respond svc d a.request.token e s).1
    exchange-respond fits = elim course [
      | stopped x refused is_done is_answer ↦ rw (is_done, is_answer) refl
      | over_limit user entered over is_done ↦ absurd (ground arith)
      | turned_away user x entered fits guarded is_done is_handled is_answer ↦
          ground (arith, is_done, is_handled, is_answer)
      | handled user entered fits free is_done is_answer ↦ rw (is_done, is_answer) refl
    ]
