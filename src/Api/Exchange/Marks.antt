-- ===== src/Api/Exchange/Marks.antt =====
-- What a response and its log entry say of themselves: the flag, the statuses, the id of the request and
-- the level.
-- Source: src/common/interceptors/, src/common/middleware/request-logger.middleware.ts,
-- src/common/filters/global-exception.filter.ts.
use mathlib.Core.Path.{subst}
use mathlib.Core.List.{append_assoc}
use vault_api.Prelude.{
  sym, ℕ, ◌-◌, String, true, false, Option, none, some, List, [], ◌∷◌, ◌++◌, ◌≡◌, ◌≢◌, ◌⊎◌, inl,
  inr, refl, arith, ◌≤◌, ◌<◌, leb, ◌==◌, string_eq, Bool-cases, Option-cases,
}
use vault_api.Http.Exception.{Exception, error, text}
use vault_api.Http.Action.{Result, ok, err}
use vault_api.Http.Request.{HttpRequest, Tracked, correlate, correlation_header_of}
use vault_api.Http.Filter.{status, catch}
use vault_api.Http.Logs.{
  LogEntry, LogLevel, finished, level_of, on_finish, on_next, on_error, on_exception,
}
use vault_api.Http.Envelope.{Body, enveloped, sent, failed, transform}
use vault_api.Api.{Endpoint, statements, Reply}
use vault_api.Api.Codes.{code_of}
use vault_api.Api.Exchange.{Arrival, Exchange, body_of, refuse, settled}

-- The body agrees with the status of the response, and says no more of an internal error than that
-- there was one.
abbrev pub Agrees : {A : Type 0} → ℕ → Body A → Type 0
Agrees code (enveloped r) = (r.success ≡ true) × (r.status_code ≡ code) × (code < 400)
Agrees code (sent reply) = code < 400
Agrees code (failed r) =
    (r.success ≡ false)
    × (r.status_code ≡ code)
    × (400 ≤ code)
    × ((code < 500) ⊎ (r.message ≡ "Internal server error"))

code_of-lt : (e : Endpoint) → code_of e < 400
unfolding code_of
code_of-lt e = ground arith

catch-Agrees :
    (A : Type 0) (request : HttpRequest) (now : ℕ) (x : Exception)
    → Agrees {A = A} (status x) (failed (catch request now x))
unfolding catch
catch-Agrees A request now (error m) = (refl, refl, omega arith, inr refl)
catch-Agrees A request now (text m) = (refl, refl, omega arith, inr refl)
catch-Agrees A request now x = (refl, refl, omega arith, inl (omega arith))

pub status-leq : (x : Exception) → 400 ≤ status x
status-leq x = ground arith

body_of-Agrees :
    (now : ℕ) (e : Endpoint) (reply : Reply e) → Agrees (code_of e) (body_of now e reply)
unfolding body_of transform
body_of-Agrees now (statements r) reply = code_of-lt (statements r)
body_of-Agrees now e reply = (refl, refl, code_of-lt e)

-- The id of a request: the one that the client has sent, or else the one that is drawn for it.
pub data IsIdOf (a : Arrival) : String → Type 0 where
  given : {id : String} → a.request.correlation_header ≡ some id → IsIdOf a id
  drawn : a.request.correlation_header ≡ none → IsIdOf a a.generated

-- The header that sends an id back. An empty id is not sent.
pub data Sends : String → Option String → Type 0 where
  sends_id : {id : String} → id ≢ "" → Sends id (some id)
  sends_nothing : Sends "" none

-- How loud a status is logged.
pub data LoggedAt : LogLevel → ℕ → Type 0 where
  quietly : {code : ℕ} → code < 400 → LoggedAt LogLevel.log code
  as_warning : {code : ℕ} → 400 ≤ code → code < 500 → LoggedAt LogLevel.warn code
  as_error : {code : ℕ} → 500 ≤ code → LoggedAt LogLevel.error code

-- The log ends in this entry.
abbrev pub EndsIn : {A : Type 0} → LogEntry → Exchange A → Type 0
EndsIn entry x = (earlier : List LogEntry) × (x.logs ≡ earlier ++ entry ∷ [])

-- The log ends in an entry for the response, with the id of the request.
abbrev pub IsLogged : {A : Type 0} → Arrival → Exchange A → Type 0
IsLogged a x =
    (id : String) × (level : LogLevel) × IsIdOf a id
    × LoggedAt level x.response.status_code
    × EndsIn
        (finished level (record {
          correlation_id = id;
          method = a.request.method;
          url = a.request.url;
          status_code = x.response.status_code;
          duration = a.finished - a.received;
          ip = a.request.ip;
          user_agent = a.request.user_agent;
        }))
        x

level_of-LoggedAt : (code : ℕ) → LoggedAt (level_of code) code
unfolding level_of
level_of-LoggedAt code = elim (Bool-cases (leb 500 code)) [
  | inl high ↦ rw high (as_error (ground arith))
  | inr below ↦ elim (Bool-cases (leb 400 code)) [
    | inl high ↦ rw (below, high) (as_warning (ground arith) (ground arith))
    | inr low ↦ rw (below, low) (quietly (ground arith))
  ]
]

pub correlate-IsIdOf :
    (a : Arrival) → IsIdOf a (correlate a.generated a.received a.request).correlation_id
unfolding correlate
correlate-IsIdOf a = elim (Option-cases a.request.correlation_header) [
  | inl missing ↦
      let is : (correlate a.generated a.received a.request).correlation_id ≡ a.generated =
        ground arith in
      subst (IsIdOf a) (sym is) (drawn missing)
  | inr (id, is_given) ↦
      let is : (correlate a.generated a.received a.request).correlation_id ≡ id = ground arith in
      subst (IsIdOf a) (sym is) (given is_given)
]

correlation_header_of-Sends :
    (tracked : Tracked) → Sends tracked.correlation_id (correlation_header_of tracked none)
unfolding correlation_header_of
correlation_header_of-Sends tracked = elim (Bool-cases (tracked.correlation_id == "")) [
  | inl empty ↦
      let is : tracked.correlation_id ≡ "" = ground arith in
      let unsent : correlation_header_of tracked none ≡ none = ground arith in
      rw unsent (subst (λ id. Sends id none) (sym is) sends_nothing)
  | inr filled ↦
      let back : correlation_header_of tracked none ≡ some tracked.correlation_id = ground arith in
      rw back (sends_id (ground arith))
]

module _ (a : Arrival) where
  abbrev pub tracked : Tracked
  tracked = correlate a.generated a.received a.request

  finishes :
      {A : Type 0} (x : Exchange A)
      → EndsIn (on_finish tracked x.response.status_code a.finished) x
      → IsLogged a x
  unfolding on_finish correlate
  finishes x ends = (
    tracked.correlation_id,
    level_of x.response.status_code,
    correlate-IsIdOf a,
    level_of-LoggedAt x.response.status_code,
    ends,
  )

  pub refuse-IsLogged :
      (A : Type 0) (header : Option String) (earlier : List LogEntry) (x : Exception)
      → IsLogged {A = A} a (refuse a tracked header earlier x)
  unfolding refuse catch
  refuse-IsLogged A header earlier x =
      let last = on_finish tracked (status x) a.finished ∷ [] in
      finishes {A = A} (refuse a tracked header earlier x) (
        earlier ++ on_exception a.request x,
        sym (append_assoc earlier (on_exception a.request x) last),
      )

  pub settled-IsLogged :
      (header : Option String) (e : Endpoint) (r : Result (Reply e))
      → IsLogged a (settled a tracked header e r)
  unfolding settled
  settled-IsLogged header e (ok reply) =
      finishes (settled a tracked header e (ok reply))
        (on_next a.request a.started a.answered (code_of e) ∷ [], refl)
  settled-IsLogged header e (err x) =
      refuse-IsLogged (Reply e) (correlation_header_of tracked header)
        (on_error a.request a.started a.answered x ∷ []) x

  pub refuse-Agrees :
      (A : Type 0) (header : Option String) (earlier : List LogEntry) (x : Exception)
      → let response = (refuse {A = A} a tracked header earlier x).response in
        Agrees response.status_code response.body
  unfolding refuse catch
  refuse-Agrees A header earlier x = catch-Agrees A a.request a.answered x

  pub settled-Agrees :
      (header : Option String) (e : Endpoint) (r : Result (Reply e))
      → let response = (settled a tracked header e r).response in
        Agrees response.status_code response.body
  unfolding settled
  settled-Agrees header e (ok reply) = body_of-Agrees a.answered e reply
  settled-Agrees header e (err x) =
      refuse-Agrees (Reply e) (correlation_header_of tracked header)
        (on_error a.request a.started a.answered x ∷ []) x

  pub settled-Sends :
      (e : Endpoint) (r : Result (Reply e))
      → Sends tracked.correlation_id (settled a tracked none e r).response.correlation
  unfolding settled refuse
  settled-Sends e (ok reply) = correlation_header_of-Sends tracked
  settled-Sends e (err x) = correlation_header_of-Sends tracked
