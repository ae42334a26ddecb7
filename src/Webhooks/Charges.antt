-- ===== src/Webhooks/Charges.antt =====
-- What a notice of a payment changes.
use vault_api.Prelude.{ℕ, String, ◌≡◌, arith, some, ◌==◌, string_eq, inl, inr, Option-cases}
use vault_api.Http.Action.{ok}
use vault_api.App.{App}
use vault_api.Users.Entity.{present}
use vault_api.Transactions.{Draw, Tables}
use vault_api.Transactions.Queries.{find_by_reference}
use vault_api.Webhooks.{
  PaystackWebhookBody, FlutterwaveWebhookBody, Providers, process_paystack_webhook,
  process_flutterwave_webhook, verify_paystack_signature, handle_paystack_charge_success,
  handle_flutterwave_charge_success,
}

module _ {Db : Type 0} (t : Tables Db) (p : Providers) (null_account : ℕ) (draw : Draw)
    (s : App Db) where
  -- Whatever a notice of Paystack says, and whether it is answered or refused, it changes nothing: no
  -- account is credited and nothing is audited.
  pub process_paystack_webhook_idle :
      (signature raw_body : String) (body : PaystackWebhookBody)
      → (process_paystack_webhook t p null_account draw signature raw_body body s).1 ≡ s
  unfolding process_paystack_webhook handle_paystack_charge_success find_by_reference
  process_paystack_webhook_idle signature raw_body body =
      elim (Option-cases
        (t.transactions.find_one (λ x. x.reference == body.charge.reference) s.db)) [
          | inl unknown ↦ ground arith
          | inr (x, known) ↦ ground arith
        ]

  -- Nor does a notice of Flutterwave change anything.
  pub process_flutterwave_webhook_idle :
      (hash : String) (body : FlutterwaveWebhookBody)
      → (process_flutterwave_webhook t p null_account draw hash body s).1 ≡ s
  unfolding process_flutterwave_webhook handle_flutterwave_charge_success find_by_reference
  process_flutterwave_webhook_idle hash body = elim (Option-cases body.charge) [
    | inl empty ↦ ground arith
    | inr (d, charged) ↦
        elim (Option-cases (t.transactions.find_one (λ x. x.reference == d.tx_ref) s.db)) [
          | inl unknown ↦ ground arith
          | inr (x, known) ↦ ground arith
        ]
  ]

  -- A notice of Paystack is looked at only under the HMAC of its body with the configured secret: any
  -- other signature is refused, and so is every one while no secret is set.
  pub process_paystack_webhook-signed :
      (signature raw_body : String) (body : PaystackWebhookBody)
      → (process_paystack_webhook t p null_account draw signature raw_body body s).0 ≡ ok tt
      → (secret : String) × (present p.paystack_secret ≡ some secret)
        × (signature ≡ p.hmac secret raw_body)
  unfolding process_paystack_webhook verify_paystack_signature
  process_paystack_webhook-signed signature raw_body body h =
      elim (Option-cases (present p.paystack_secret)) [
        | inl unset ↦ absurd (ground arith)
        | inr (secret, set_) ↦ (secret, set_, ground arith)
      ]
