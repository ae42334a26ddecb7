-- ===== src/Api/Exchange/Answered.antt =====
-- What every request over HTTP is answered with, from the guards to the response.
-- Source: src/app.module.ts, src/common/filters/global-exception.filter.ts,
-- src/common/interceptors/transform.interceptor.ts.
use vault_api.Prelude.{nat_eq, true, false, Option, none, [], ◌↔◌, ◌≡◌, ◌⊎◌, Bool}
use vault_api.Http.Exception.{Exception, too_many_requests}
use vault_api.Http.Action.{ok}
use vault_api.Http.Request.{HttpRequest, correlate}
use vault_api.App.{App}
use vault_api.Auth.Guards.{Principal, authorise}
use vault_api.Auth.Guards.Entry.{MayEnter, authorise-MayEnter}
use vault_api.Accounts.Controller as AccountsController
use vault_api.Auth.Controller as AuthController
use vault_api.Beneficiaries.Controller as BeneficiariesController
use vault_api.Fees.Controller as FeesController
use vault_api.Kyc.Controller as KycController
use vault_api.Transactions.Controller as TransactionsController
use vault_api.TransactionPin.Controller as TransactionPinController
use vault_api.Api.{Services, Draws, Endpoint, access, Reply, handle}
use vault_api.Config.{Limit}
use vault_api.Api.Limits.{limit_of}
use vault_api.Api.Exchange.{Arrival, Exchange, refuse}
use vault_api.Api.Exchange.Answers.{ShowsError, Shows}

module _ {Db : Type 0} (svc : Services Db) (within : Limit → HttpRequest → Bool)
    (configured : Limit) (d : Draws) (a : Arrival) (e : Endpoint) (s : App Db) where
  abbrev pub Enters : Option Principal → Type 0
  Enters = MayEnter svc.bcrypt svc.users svc.verify d.now (access e) a.request.token s.db

  -- What a request comes to, with its response and the state that it leaves.
  pub data Answered : Exchange (Reply e) × App Db → Type 0 where
    not_let_in :
        {done : Exchange (Reply e)} (x : Exception)
        → ((p : Option Principal) → ¬ (Enters p))
        → ShowsError a x done.response
        → (done.response.status_code ≡ 401) ⊎ (done.response.status_code ≡ 403)
        → Answered (done, s)
    too_many :
        {done : Exchange (Reply e)} (p : Option Principal)
        → Enters p
        → within (limit_of configured e) a.request ≡ false
        → ShowsError a (too_many_requests "ThrottlerException: Too Many Requests") done.response
        → Answered (done, s)
    answered :
        {done : Exchange (Reply e)} (p : Option Principal)
        → Enters p
        → within (limit_of configured e) a.request ≡ true
        → Shows a e (handle svc d p e s).0 done.response
        → Answered (done, (handle svc d p e s).1)

  pub entrance :
      (p : Option Principal)
      → ((authorise svc.bcrypt svc.users svc.verify d.now (access e) a.request.token s.db).0 ≡ ok p)
        ↔ Enters p
  entrance p =
      authorise-MayEnter svc.bcrypt svc.users svc.verify d.now (access e) a.request.token p s.db

  abbrev away : Exception → Exchange (Reply e)
  away = refuse a (correlate a.generated a.received a.request) none []
