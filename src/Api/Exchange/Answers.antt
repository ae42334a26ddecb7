-- ===== src/Api/Exchange/Answers.antt =====
-- What every request over HTTP is answered with, said without the filter, the interceptors and the
-- tables of statuses.
use vault_api.Prelude.{
  nat_eq, ℕ, String, true, false, Option, List, [], ◌∷◌, ◌↔◌, ◌≡◌, ◌⊎◌, refl, arith,
}
use vault_api.Http.Exception.{
  Exception, bad_request, unauthorized, forbidden, not_found, conflict, conflict_over,
  too_many_requests, error, text,
}
use vault_api.Http.Action.{Result, ok, err}
use vault_api.Http.Request.{correlate, correlation_header_of}
use vault_api.Http.Filter.{catch}
use vault_api.Http.Logs.{LogEntry, on_error}
use vault_api.Http.Envelope.{Body, enveloped, sent, failed, HttpResponse, transform}
use vault_api.Accounts.Controller as AccountsController
use vault_api.Auth.Controller as AuthController
use vault_api.Beneficiaries.Controller as BeneficiariesController
use vault_api.Fees.Controller as FeesController
use vault_api.Kyc.Controller as KycController
use vault_api.Transactions.Controller as TransactionsController
use vault_api.TransactionPin.Controller as TransactionPinController
use vault_api.Api.{
  Endpoint, accounts, auth, beneficiaries, fees, kyc, statements, transactions, transaction_pin,
  Reply,
}
use vault_api.Api.Codes.{code_of}
use vault_api.Api.Exchange.{Arrival, body_of, refuse, settled}

-- The status and the message of an error.
pub data Refused : Exception → ℕ → String → Type 0 where
  is_bad_request : (m : String) → Refused (bad_request m) 400 m
  is_unauthorized : (m : String) → Refused (unauthorized m) 401 m
  is_forbidden : (m : String) → Refused (forbidden m) 403 m
  is_not_found : (m : String) → Refused (not_found m) 404 m
  is_conflict : (m : String) → Refused (conflict m) 409 m
  is_conflict_over : (m : String) (i : ℕ) (r : String) → Refused (conflict_over m i r) 409 m
  is_too_many : (m : String) → Refused (too_many_requests m) 429 m
  is_error : (m : String) → Refused (error m) 500 "Internal server error"
  is_text : (m : String) → Refused (text m) 500 "Internal server error"

-- The requests that make something.
pub data Creates : Endpoint → Type 0 where
  an_account : {d : _} → Creates (accounts (AccountsController.create d))
  a_user : {d : _} → Creates (auth (AuthController.register d))
  a_beneficiary : {d : _} → Creates (beneficiaries (BeneficiariesController.create d))
  a_fee_rule : {d : _} → Creates (fees (FeesController.upsert d))
  the_fee_rules : Creates (fees FeesController.seed)
  a_submission : {d : _} → Creates (kyc (KycController.submit d))
  a_transfer : {h d : _} → Creates (transactions (TransactionsController.transfer h d))
  a_deposit : {d : _} → Creates (transactions (TransactionsController.deposit d))
  a_withdrawal : {h d : _} → Creates (transactions (TransactionsController.withdraw h d))
  a_pin : {d : _} → Creates (transaction_pin (TransactionPinController.set_pin d))

-- 201 for what makes something, 200 for the rest.
abbrev pub Succeeds : Endpoint → ℕ → Type 0
Succeeds e code = (Creates e ↔ (code ≡ 201)) × ((code ≡ 200) ⊎ (code ≡ 201))

-- A statement goes out as it is; any other reply stands in the envelope, with the status and the time.
abbrev pub Carries : ℕ → ℕ → (e : Endpoint) → Reply e → Body (Reply e) → Type 0
Carries code now (statements r) reply body = body ≡ sent reply
Carries code now e reply body =
    body
    ≡ enveloped (record { success = true; status_code = code; content = reply; timestamp = now })

-- The response of an error.
abbrev pub ShowsError : {A : Type 0} → Arrival → Exception → HttpResponse A → Type 0
ShowsError a x response =
    (message : String) × Refused x response.status_code message
    × (response.body
        ≡ failed (record {
          success = false;
          status_code = response.status_code;
          timestamp = a.answered;
          path = a.request.url;
          method = a.request.method;
          message = message;
        }))

-- The response tells what a handler has returned or thrown.
abbrev pub Shows : Arrival → (e : Endpoint) → Result (Reply e) → HttpResponse (Reply e) → Type 0
Shows a e (ok reply) response =
    Succeeds e response.status_code × Carries response.status_code a.answered e reply response.body
Shows a e (err x) response = ShowsError a x response

Creates-code_of : (e : Endpoint) → Creates e → code_of e ≡ 201
unfolding code_of
Creates-code_of e an_account = refl
Creates-code_of e a_user = refl
Creates-code_of e a_beneficiary = refl
Creates-code_of e a_fee_rule = refl
Creates-code_of e the_fee_rules = refl
Creates-code_of e a_submission = refl
Creates-code_of e a_transfer = refl
Creates-code_of e a_deposit = refl
Creates-code_of e a_withdrawal = refl
Creates-code_of e a_pin = refl

code_of-Creates : (e : Endpoint) → code_of e ≡ 201 → Creates e
unfolding code_of
code_of-Creates (accounts (AccountsController.create d)) h = an_account
code_of-Creates (auth (AuthController.register d)) h = a_user
code_of-Creates (beneficiaries (BeneficiariesController.create d)) h = a_beneficiary
code_of-Creates (fees (FeesController.upsert d)) h = a_fee_rule
code_of-Creates (fees FeesController.seed) h = the_fee_rules
code_of-Creates (kyc (KycController.submit d)) h = a_submission
code_of-Creates (transactions (TransactionsController.transfer header d)) h = a_transfer
code_of-Creates (transactions (TransactionsController.deposit d)) h = a_deposit
code_of-Creates (transactions (TransactionsController.withdraw header d)) h = a_withdrawal
code_of-Creates (transaction_pin (TransactionPinController.set_pin d)) h = a_pin
code_of-Creates e h = absurd (ground arith)

code_of-Succeeds : (e : Endpoint) → Succeeds e (code_of e)
unfolding code_of
code_of-Succeeds e = ((Creates-code_of e, code_of-Creates e), ground arith)

body_of-Carries :
    (now : ℕ) (e : Endpoint) (reply : Reply e)
    → Carries (code_of e) now e reply (body_of now e reply)
unfolding body_of transform
body_of-Carries now (statements r) reply = refl
body_of-Carries now e reply = refl

pub refuse-ShowsError :
    {A : Type 0} (a : Arrival) (header : Option String) (earlier : List LogEntry) (x : Exception)
    → let tracked = correlate a.generated a.received a.request in
      ShowsError {A = A} a x (refuse a tracked header earlier x).response
unfolding refuse catch
refuse-ShowsError a header earlier (bad_request m) = (m, is_bad_request m, refl)
refuse-ShowsError a header earlier (unauthorized m) = (m, is_unauthorized m, refl)
refuse-ShowsError a header earlier (forbidden m) = (m, is_forbidden m, refl)
refuse-ShowsError a header earlier (not_found m) = (m, is_not_found m, refl)
refuse-ShowsError a header earlier (conflict m) = (m, is_conflict m, refl)
refuse-ShowsError a header earlier (conflict_over m i r) = (m, is_conflict_over m i r, refl)
refuse-ShowsError a header earlier (too_many_requests m) = (m, is_too_many m, refl)
refuse-ShowsError a header earlier (error m) = ("Internal server error", is_error m, refl)
refuse-ShowsError a header earlier (text m) = ("Internal server error", is_text m, refl)

pub settled-Shows :
    (a : Arrival) (header : Option String) (e : Endpoint) (r : Result (Reply e))
    → let tracked = correlate a.generated a.received a.request in
      Shows a e r (settled a tracked header e r).response
unfolding settled
settled-Shows a header e (ok reply) = (code_of-Succeeds e, body_of-Carries a.answered e reply)
settled-Shows a header e (err x) =
    refuse-ShowsError a (correlation_header_of (correlate a.generated a.received a.request) header)
      (on_error a.request a.started a.answered x ∷ []) x
