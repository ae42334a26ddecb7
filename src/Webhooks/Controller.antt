-- ===== src/Webhooks/Controller.antt =====
-- `WebhookController`. Neither of its routes is marked as public, so the guard of tokens stands before
-- them as before any other.
-- Source: src/webhooks/webhooks.controller.ts.
use vault_api.Prelude.{ℕ, String}
use vault_api.Http.Action.{Action, ◌>>◌, pure}
use vault_api.App.{App}
use vault_api.Auth.Guards.{Access, signed_in}
use vault_api.Transactions.{Draw, Tables}
use vault_api.Webhooks.{
  Providers, PaystackWebhookBody, FlutterwaveWebhookBody, process_paystack_webhook,
  process_flutterwave_webhook,
}

pub data Route : Type 0 where
  handle_paystack_webhook : String → String → PaystackWebhookBody → Route
  handle_flutterwave_webhook : String → FlutterwaveWebhookBody → Route

unfoldable pub access : Route → Access
access _ = signed_in

-- `{ received: true }` and `{ status: 'success' }`.
abbrev pub Reply : Route → Type 0
Reply _ = String

module _ {Db : Type 0} (t : Tables Db) (p : Providers) (null_account : ℕ) where
  unfoldable pub handle : Draw → (route : Route) → Action (App Db) (Reply route)
  handle draw (handle_paystack_webhook signature raw_body body) =
      process_paystack_webhook t p null_account draw signature raw_body body >> pure "received"
  handle draw (handle_flutterwave_webhook hash body) =
      process_flutterwave_webhook t p null_account draw hash body >> pure "success"
