-- ===== src/Api/Limits.antt =====
-- How many requests a client may make in how long. The counting is the throttler's.
-- Source: src/common/decorators/throttle.decorators.ts, src/transactions/transactions.controller.ts,
-- src/app.module.ts.
use vault_api.Config.{Limit}
use vault_api.Transactions.Controller as TransactionsController
use vault_api.Api.{Endpoint, transactions}

-- `@FinancialEndpoint()` and `@ReadEndpoint()`; no route has `@AuthEndpoint()`.
abbrev pub financial_endpoint : Limit
financial_endpoint = record { limit = 5; ttl = 60000 }

abbrev pub read_endpoint : Limit
read_endpoint = record { limit = 60; ttl = 60000 }

unfoldable pub transactions_limit : TransactionsController.Route → Limit
transactions_limit (TransactionsController.transfer header dto) = financial_endpoint
transactions_limit (TransactionsController.deposit dto) = financial_endpoint
transactions_limit (TransactionsController.withdraw header dto) = financial_endpoint
transactions_limit _ = read_endpoint

-- A route without a decorator has the limit of the configuration.
unfoldable pub limit_of : Limit → Endpoint → Limit
unfolding transactions_limit
limit_of configured (transactions r) = transactions_limit r
limit_of configured _ = configured
