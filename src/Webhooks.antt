-- ===== src/Webhooks.antt =====
-- `WebhookService` and the two clients of the payment providers. Parameters: the environment's
-- secrets, `hmac` (the hexadecimal HMAC-SHA512 of node's crypto), and what each provider's server
-- answers to a request for a reference, `none` for a failed request, whose HTTP status is left out of
-- the message. Amounts arrive in kobo from
-- Paystack and, from Flutterwave, in ten-thousandths of a kobo already. What is logged is left out; `email` is
-- the field of the customer. `null_account` is the account
-- that TypeORM finds when the key it is asked for is null.
-- Source: src/webhooks/webhooks.service.ts, src/webhooks/webhook-payload.ts.
pub mod Charges
pub mod Masking
pub mod Controller
use vault_api.Prelude.{
  ℕ, String, ◌*◌, ◌/◌, ◌<>◌, Bool, true, false, ◌&&◌, Option, none, some, List, [], ◌∷◌, ◌==◌, ◌!=◌,
  string_eq, if◌then◌else◌,
}
use vault_api.Http.Exception.{Exception, error}
use vault_api.Http.Action.{
  Result, ok, err, Action, ◌>>=◌, ◌>>◌, pure, throw, throw_if, or_throw, gets,
}
use vault_api.App.{App, on_db, try_catch, log}
use vault_api.Audit.Entity.{
  AuditAction, AuditContext, by_text, number, string, undefined, MetadataValue,
}
use vault_api.Users.Entity.{present}
use vault_api.Webhooks.Masking.{mask_email}
use vault_api.Transactions.Entity.{Transaction, DepositDto}
use vault_api.Transactions.{Draw, Tables}
use vault_api.Transactions.Deposit.{deposit}
use vault_api.Transactions.Queries.{find_by_reference, find_pending_by_reference}

pub record PaystackChargeData : Type 0 where
  pub reference : String
  pub amount : ℕ

-- The data of a verification, which has a status besides.
pub record PaystackVerifiedData : Type 0 where
  pub reference : String
  pub amount : ℕ
  pub status : String
  pub email : Option String

pub record FlutterwaveChargeData : Type 0 where
  pub tx_ref : String
  pub amount : ℕ
  pub currency : String
  pub status : String
  pub email : Option String

-- The JSON of a verification: its status and, if there is any, its data.
pub record Verification (Data : Type 0) : Type 0 where
  pub status : String
  pub charge : Option Data

pub record PaystackWebhookBody : Type 0 where
  pub event : String
  pub charge : PaystackChargeData

pub record FlutterwaveWebhookBody : Type 0 where
  pub event : String
  pub charge : Option FlutterwaveChargeData

-- What the process is started with, and the world outside it.
pub record Providers : Type 0 where
  pub paystack_secret : Option String
  pub flutterwave_secret : Option String
  pub flutterwave_hash : Option String
  pub hmac : String → String → String
  pub paystack_answer : String → Option (Verification PaystackVerifiedData)
  pub flutterwave_answer : String → Option (Verification FlutterwaveChargeData)

-- `verifyTransaction` of either client.
unfoldable pub verify_transaction :
    {S Data : Type 0}
    → String
    → String
    → Option String
    → (String → Option (Verification Data))
    → String
    → Action S (Verification Data)
verify_transaction unset failed secret answer reference = do
  key ← or_throw (present secret) (error unset)
  or_throw (answer reference) (error failed)

module _ (p : Providers) where
  unfoldable pub verify_paystack_signature : String → String → Result (Unit {0})
  verify_paystack_signature signature raw_body = elim (present p.paystack_secret) [
    | none ↦ err (error "PAYSTACK_SECRET_KEY not configured")
    | some secret ↦
        if signature != p.hmac secret raw_body
        then err (error "Invalid Paystack signature")
        else ok tt
  ]

  unfoldable pub verify_flutterwave_hash : String → Result (Unit {0})
  verify_flutterwave_hash hash = elim (present p.flutterwave_hash) [
    | none ↦ err (error "FLUTTERWAVE_SECRET_HASH not configured")
    | some secret ↦ if hash != secret then err (error "Invalid Flutterwave hash") else ok tt
  ]

abbrev about : String → String → List (String × MetadataValue) → AuditContext
about reference provider metadata = record {
  user_id = none;
  ip_address = none;
  user_agent = none;
  resource_id = some (by_text reference);
  resource_type = some provider;
  metadata = metadata;
  is_suspicious = none;
}

abbrev masked : Option String → MetadataValue
masked email = elim (mask_email email) [ none ↦ undefined | some text ↦ string text ]

abbrev or_null : ℕ → Option ℕ → ℕ
or_null null_account none = null_account
or_null null_account (some account) = account

module _ {Db : Type 0} (t : Tables Db) (p : Providers) (null_account : ℕ) (draw : Draw) where
  -- The `try` block: a deposit that throws is logged and forgotten.
  abbrev credit :
      String
      → String
      → ℕ
      → String
      → List (String × MetadataValue)
      → Transaction
      → Action (App Db) (Unit {0})
  credit reference provider amount description metadata pending_tx =
      try_catch
        (deposit t draw (record {
          account_id = or_null null_account pending_tx.destination_account_id;
          amount = amount;
          description = some description;
          reference = some reference;
        })
          >> log AuditAction.deposit_completed (about reference provider metadata))
        (λ _. pure tt)

  -- Nothing is done for a reference that has no pending transaction.
  abbrev if_pending :
      String → (Transaction → Action (App Db) (Unit {0})) → Action (App Db) (Unit {0})
  if_pending reference act s = elim (find_pending_by_reference t reference s.db) [
    | none ↦ (ok tt, s)
    | some pending_tx ↦ act pending_tx s
  ]

  -- `if (!data || data.status !== wanted) return;`
  abbrev with_status :
      {Data : Type 0}
      → (Data → String)
      → String
      → Option Data
      → (Data → Action (App Db) (Unit {0}))
      → Action (App Db) (Unit {0})
  with_status status wanted none act s = (ok tt, s)
  with_status status wanted (some data_) act s =
      if status data_ != wanted then (ok tt, s) else act data_ s

  -- What follows once no transaction is known for the reference.
  unfoldable pub take_paystack_charge : String → Action (App Db) (Unit {0})
  take_paystack_charge reference = do
    verification ←
        verify_transaction "PAYSTACK_SECRET_KEY not configured" "Paystack verify request failed"
          p.paystack_secret p.paystack_answer reference
    if verification.status != "success"
        then pure tt
        else with_status (λ d. d.status) "success" verification.charge
            (λ d. if_pending reference (
              credit reference "paystack" (d.amount * 10000)
                ("Paystack deposit — ref: " <> reference)
                (("amount", number (d.amount * 10000)) ∷ ("email", masked d.email) ∷ [])))

  unfoldable pub take_flutterwave_charge : String → Action (App Db) (Unit {0})
  take_flutterwave_charge reference = do
    verification ←
        verify_transaction "FLUTTERWAVE_SECRET_KEY not configured"
          "Flutterwave verify request failed" p.flutterwave_secret p.flutterwave_answer reference
    if verification.status != "success"
        then pure tt
        else with_status (λ d. d.status) "successful" verification.charge
            (λ d.
              if d.currency != "NGN"
              then pure tt
              else if_pending reference (
                  credit reference "flutterwave" d.amount
                    ("Flutterwave deposit — ref: " <> reference)
                    (("amount", number d.amount)
                      ∷ ("currency", string d.currency)
                      ∷ ("email", masked d.email)
                      ∷ [])))

  -- `if (existing) return;` on a value of which `findByReference` never returns null.
  abbrev unless_existing :
      Option Transaction → Action (App Db) (Unit {0}) → Action (App Db) (Unit {0})
  unless_existing none next = next
  unless_existing (some existing) next = pure tt

  unfoldable pub handle_paystack_charge_success : PaystackChargeData → Action (App Db) (Unit {0})
  handle_paystack_charge_success d = do
    existing ← on_db (find_by_reference t d.reference)
    unless_existing (some existing) (take_paystack_charge d.reference)

  unfoldable pub handle_flutterwave_charge_success :
      FlutterwaveChargeData → Action (App Db) (Unit {0})
  handle_flutterwave_charge_success d = do
    existing ← on_db (find_by_reference t d.tx_ref)
    unless_existing (some existing) (take_flutterwave_charge d.tx_ref)

  unfoldable pub process_paystack_webhook :
      String → String → PaystackWebhookBody → Action (App Db) (Unit {0})
  process_paystack_webhook signature raw_body body s =
      elim (verify_paystack_signature p signature raw_body) [
        | err e ↦ (err e, s)
        | ok _ ↦
            if body.event == "charge.success"
            then handle_paystack_charge_success body.charge s
            else (ok tt, s)
      ]

  -- `data?.status === 'successful'`
  unfoldable pub process_flutterwave_webhook :
      String → FlutterwaveWebhookBody → Action (App Db) (Unit {0})
  process_flutterwave_webhook hash body s = elim (verify_flutterwave_hash p hash) [
    | err e ↦ (err e, s)
    | ok _ ↦ elim body.charge [
      | none ↦ (ok tt, s)
      | some d ↦
          if body.event == "charge.completed" && d.status == "successful"
          then handle_flutterwave_charge_success d s
          else (ok tt, s)
    ]
  ]
