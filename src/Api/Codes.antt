-- ===== src/Api/Codes.antt =====
-- The status of a reply: 201 for a POST and 200 for any other method, or what `@HttpCode` says.
-- Source: the controllers of src/app.module.ts.
use vault_api.Prelude.{ℕ}
use vault_api.Accounts.Controller as AccountsController
use vault_api.Auth.Controller as AuthController
use vault_api.Beneficiaries.Controller as BeneficiariesController
use vault_api.Fees.Controller as FeesController
use vault_api.Kyc.Controller as KycController
use vault_api.Transactions.Controller as TransactionsController
use vault_api.TransactionPin.Controller as TransactionPinController
use vault_api.Api.{
  Endpoint, accounts, auth, beneficiaries, fees, kyc, transactions, transaction_pin,
}

unfoldable pub accounts_code : AccountsController.Route → ℕ
accounts_code (AccountsController.create dto) = 201
accounts_code _ = 200

unfoldable pub auth_code : AuthController.Route → ℕ
auth_code (AuthController.register dto) = 201
auth_code _ = 200

unfoldable pub beneficiaries_code : BeneficiariesController.Route → ℕ
beneficiaries_code (BeneficiariesController.create dto) = 201
beneficiaries_code _ = 200

unfoldable pub fees_code : FeesController.Route → ℕ
fees_code (FeesController.upsert dto) = 201
fees_code FeesController.seed = 201
fees_code _ = 200

unfoldable pub kyc_code : KycController.Route → ℕ
kyc_code (KycController.submit dto) = 201
kyc_code _ = 200

unfoldable pub transactions_code : TransactionsController.Route → ℕ
transactions_code (TransactionsController.transfer header dto) = 201
transactions_code (TransactionsController.deposit dto) = 201
transactions_code (TransactionsController.withdraw header dto) = 201
transactions_code _ = 200

unfoldable pub transaction_pin_code : TransactionPinController.Route → ℕ
transaction_pin_code (TransactionPinController.set_pin dto) = 201
transaction_pin_code _ = 200

unfoldable pub code_of : Endpoint → ℕ
unfolding accounts_code auth_code beneficiaries_code fees_code kyc_code transactions_code
    transaction_pin_code
code_of (accounts r) = accounts_code r
code_of (auth r) = auth_code r
code_of (beneficiaries r) = beneficiaries_code r
code_of (fees r) = fees_code r
code_of (kyc r) = kyc_code r
code_of (transactions r) = transactions_code r
code_of (transaction_pin r) = transaction_pin_code r
code_of _ = 200
