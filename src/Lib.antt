-- ===== src/Lib.antt =====
-- Vault API: a bank's back end in TypeScript (NestJS, TypeORM). Its services open accounts, move money
-- between them, price transfers, and keep users, sessions, PINs, wallets, KYC documents, beneficiaries
-- and notifications.
--
-- How the parts stand together. A service method is an action on a state (Http/Action): it returns or
-- throws, and the state stays as it was written after a throw too. Http/Exception and Http/Filter are
-- src/common/utils/error.ts and src/common/filters/global-exception.filter.ts. The tables belong to
-- TypeORM, which is not part of the repository: Orm is the interface through which the services reach a
-- table (find, save, update, delete) over an unknown state of the database, with what its documentation
-- promises of each call as named laws; Orm/Lists meets them with lists. App is the state of the process:
-- the database, the cache of fee rules, the counters of wrong PINs, the audit entries and the events. A
-- database transaction works on a copy of the database, which is committed or dropped.
--
-- Which file is which.
--   Accounts: src/accounts/accounts.service.ts and its entity. Debit, Ownership and Sound hold the
--     theorems on a debit, on who reaches an account, and on the table as a whole. Interleaving cuts a
--     debit at its awaits and lets two of them take turns.
--   Fees: src/fees/fees.service.ts. Calculation is the arithmetic of `calculate`; the cache, `upsert`,
--     `deactivate` and `seedDefaults` are in Fees.
--   Transactions: src/transactions/transactions.service.ts, with Transfer, Deposit and Withdrawal for the
--     three methods that move money, Queries for the lists, and Idempotency for
--     src/common/guards/idempotency.guard.ts. Settlement holds what the three methods share. Bank is the
--     abstract specification: of each account the owner, the currency, whether it may pay and the funds.
--   TransactionPin: src/transaction-pin/transaction-pin.service.ts.
--   Users and Auth: src/users/users.service.ts, src/users/entities/user.entity.ts and
--     src/auth/auth.service.ts. Users/Hashing is the interface of bcryptjs. Auth/Guards has the guards and
--     the strategies of src/auth/guards and src/auth/strategies.
--   A Controller under a component is its controller: the routes as a data type, who may take each, what
--     each answers, and the calls of the service.
--   Api: src/app.module.ts. `respond` takes a request through the guards to its controller. Frame says
--     which components leave a table alone that is not theirs, Effect what a request may do to the
--     accounts, and Safety and Owners what follows for any request, Absence for any list of them. Exchange
--     is the whole way of a request over HTTP: the middleware, the guards, the throttler, the interceptors
--     of src/common/interceptors and the filter, with the parts of the response and of the log in Http.
--     Wallets is about the table that no controller adds to.
--   Wallets and Kyc: src/wallets/wallets.service.ts and src/kyc/kyc.service.ts.
--   Beneficiaries, Notifications, Webhooks, Statements: the services of the same names under src/;
--     Notifications/Delivery has what the event of a transfer leaves in the inboxes.
--   Admin: src/admin/scheduler.service.ts, and src/admin/admin.service.ts in Dashboard.
--   Config and Bootstrap: src/config/configuration.ts, src/app.module.ts and src/main.ts.
--   Health: src/health/health.controller.ts.
--   Audit and Events: src/audit/audit.service.ts and src/events/domain-events.ts.
--   Common: src/common/enums/currency.enum.ts, the pages of src/transactions/transactions.service.ts,
--     src/common/validators/fintech.validators.ts and src/common/pipes/parse-pagination.pipe.ts.
--   Tests: concrete runs, over tables kept as lists.
--
-- Numbers. Keys are natural numbers. An amount of the transactions is in ten-thousandths of a kobo, so
-- that every fee is a whole number of them; the limits of a wallet and of a fee rule are in kobo. A
-- balance is an integer. Times are in milliseconds. JavaScript's numbers are taken as exact, and the
-- rounding of the columns of the database to two decimals is left out. The optional numbers of a fee
-- rule are not negative, and the page of a query is at least 1, though neither is checked by the code.
--
-- What is a parameter: the tables, the clock, random draws and new keys, bcryptjs, the signing and
-- the verification of tokens, the HMAC, the servers of the payment providers, the checks of
-- @nestjs/terminus, the calendar, the orders of the queries, and the text of a number.
--
-- The only bound on a recursion is that of `save_with_retry` (Audit/Writing): four rounds are enough,
-- since at most four attempts are made, and the theorem on it holds for every bound from four on.
--
-- What is not modelled: the framework's own work (the routing of paths, the validation of bodies, the
-- throttler's counting), the serialisation of replies, the checks that @nestjs/terminus makes, and
-- `getDailyVolume`, which no route calls. Apart from Accounts/Interleaving and
-- Transactions/Retries, calls run one after the other: two transfers that interleave in the database
-- are not modelled.
--
-- Taken from the documentation of NestJS and passport: the middleware runs first, then the guards, then
-- the interceptors around the handler, and the filter answers whatever was thrown; a request without a
-- good token, or without an email and a password at the login, is answered with 401 "Unauthorized".
pub mod Prelude
pub mod Config
pub mod Bootstrap
pub mod Http
pub mod Orm
pub mod Common
pub mod App
pub mod Events
pub mod Audit
pub mod Users
pub mod Auth
pub mod TransactionPin
pub mod Accounts
pub mod Wallets
pub mod Kyc
pub mod Fees
pub mod Transactions
pub mod Webhooks
pub mod Beneficiaries
pub mod Notifications
pub mod Statements
pub mod Admin
pub mod Health
pub mod Api
mod Tests
