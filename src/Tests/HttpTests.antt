-- ===== src/Tests/HttpTests.antt =====
-- Requests over HTTP, to the application of ada and the administrator.
use vault_api.Prelude.{String, Bool, true, List, [], ◌∷◌, none, some, ◌≡◌, ◌⊎◌, ◌≤◌, nat_eq}
use vault_api.App.{App}
use vault_api.Http.Request.{HttpRequest}
use vault_api.Accounts.Sound.{IsSound}
use vault_api.Config.{Limit}
use vault_api.Api.{Reply}
use vault_api.Api.Exchange.{Arrival, Exchange, exchange}
use vault_api.Api.Exchange.Answered.{Answered}
use vault_api.Api.Exchange.Marks.{IsIdOf, Sends}
use vault_api.Api.Exchange.Trace.{Reaches, IsStopped, exchange_traced}
use vault_api.Api.Exchange.Safety.{Sent, exchange_all, exchange_all-IsSound}
use vault_api.Tests.Application.{Store, opening, running, services, services-AreWired}
use vault_api.Tests.ApiTests.{draws, paying, freezing, opening-IsSound}

abbrev from_phone : HttpRequest
from_phone = record {
  token = some "7";
  correlation_header = some "phone-1";
  method = "POST";
  url = "/api/transactions/transfer";
  ip = "10.0.0.1";
  user_agent = none;
}

abbrev pub arrival : Arrival
arrival = record {
  request = from_phone;
  generated = "generated";
  received = 990;
  started = 995;
  answered = 1002;
  finished = 1003;
}

abbrev pub usual : Limit
usual = record { limit = 10; ttl = 60000 }

abbrev pub within : Limit → HttpRequest → Bool
within limit request = true

abbrev response : Exchange (Reply paying) × App Store
response = exchange services within usual draws arrival paying (running opening)

exchange_traced_example :
    (Reaches services within usual draws arrival paying (running opening)
      × ((id : String) × IsIdOf arrival id × Sends id response.0.response.correlation))
    ⊎ (IsStopped services within usual draws arrival paying (running opening)
        × (response.0.response.correlation ≡ none)
        × (400 ≤ response.0.response.status_code)
        × (response.1 ≡ running opening))
exchange_traced_example =
    exchange_traced services within usual draws arrival paying (running opening)

abbrev traffic : List Sent
traffic =
    record { draws = draws; arrival = arrival; endpoint = paying }
    ∷ record { draws = draws; arrival = arrival; endpoint = freezing }
    ∷ []

exchange_all-IsSound_example :
    IsSound services.tables.accounts services-AreWired.tables.accounts
      (exchange_all services within usual traffic (running opening)).db
exchange_all-IsSound_example =
    exchange_all-IsSound services within usual services-AreWired traffic (running opening)
      opening-IsSound
