-- ===== src/Statements.antt =====
-- `StatementsService` and `StatementsController`: the statement of an account as CSV. JavaScript's
-- texts of dates and numbers are parameters, and so is the order of the rows, oldest first, that the
-- query asks for.
-- Source: src/statements/statements.service.ts, src/statements/statements.controller.ts.
pub mod Csv
pub mod Rows
pub mod Listing
use vault_api.Prelude.{
  ℕ, String, ◌+◌, ◌<>◌, Bool, true, false, ◌&&◌, Option, none, some, List, [], ◌∷◌, map, ltb, leb,
  length, ◌==◌, ◌!=◌, nat_eq, option_eq, string_eq, if◌then◌else◌,
}
use vault_api.Http.Exception.{not_found, forbidden, bad_request}
use vault_api.Http.Action.{Result, Action, ◌>>=◌, ◌>>◌, pure, throw_if, or_throw, gets}
use vault_api.Accounts.Entity.{Account}
use vault_api.Auth.Guards.{Principal, Access, signed_in, user_id_of}
use vault_api.Users.Entity.{present}
use vault_api.Transactions.{Tables}
use vault_api.Transactions.Entity.{Transaction, completed, status_eq}
use vault_api.Transactions.Queries.{touches}
use vault_api.Statements.Rows.{Texts, StatementRow, row_of}
use vault_api.Statements.Csv.{to_csv}

pub record Statement : Type 0 where
  pub csv : String
  pub filename : String
  pub account : Account

module _ {Db : Type 0} (t : Tables Db) (texts : Texts)
    (sorted : List Transaction → List Transaction) where
  -- `createdAt BETWEEN :from AND :to` takes both ends in.
  abbrev pub is_listed : ℕ → ℕ → ℕ → Transaction → Bool
  is_listed account_id from to x =
      touches t sorted account_id x
      && x.status == completed
      && leb from x.created_at
      && leb x.created_at to

  unfoldable pub transactions_of : ℕ → ℕ → ℕ → Db → List Transaction
  transactions_of account_id from to db =
      sorted (t.transactions.find (is_listed account_id from to) db)

  unfoldable pub generate_csv : ℕ → ℕ → ℕ → ℕ → ℕ → Action Db Statement
  unfolding transactions_of
  generate_csv now account_id user_id from to = do
    account ←
        or_throw (← gets (t.accounts.find_one (λ a. a.id == account_id)))
          (not_found "Account not found")
    throw_if (account.user_id != user_id) (forbidden "Access denied")
    transactions ← gets (transactions_of account_id from to)
    pure (record {
      csv = to_csv texts now (map (row_of texts account_id) transactions) account;
      filename =
          "statement_"
          <> account.account_number
          <> "_"
          <> texts.day from
          <> "_"
          <> texts.day to
          <> ".csv";
      account = account;
    })

  -- `new Date(text)`, where an invalid date is `none`, and `setHours(23, 59, 59, 999)`.
  module _ (date : String → Option ℕ) (end_of_day : ℕ → ℕ) where
    -- The answer is the text that is sent and the name that it is sent under.
    unfoldable pub download_csv :
        ℕ → Option Principal → ℕ → Option String → Option String → Action Db (String × String)
    unfolding generate_csv
    download_csv now user account_id from_str to_str = do
      from_text ←
          or_throw (present from_str)
            (bad_request "Query params \"from\" and \"to\" are required (YYYY-MM-DD)")
      to_text ←
          or_throw (present to_str)
            (bad_request "Query params \"from\" and \"to\" are required (YYYY-MM-DD)")
      from ← or_throw (date from_text) (bad_request "Invalid date format. Use YYYY-MM-DD")
      to ← or_throw (date to_text) (bad_request "Invalid date format. Use YYYY-MM-DD")
      throw_if (ltb (end_of_day to) from) (bad_request "\"from\" must be before \"to\"")
      u ← user_id_of user
      statement ← generate_csv now account_id u from (end_of_day to)
      pure (statement.csv, statement.filename)

pub data Route : Type 0 where
  download : ℕ → Option String → Option String → Route

unfoldable pub access : Route → Access
access _ = signed_in

abbrev pub Reply : Route → Type 0
Reply _ = String × String

module _ {Db : Type 0} (t : Tables Db) (texts : Texts)
    (sorted : List Transaction → List Transaction) (date : String → Option ℕ)
    (end_of_day : ℕ → ℕ) where
  unfoldable pub handle : ℕ → Option Principal → (route : Route) → Action Db (Reply route)
  unfolding download_csv
  handle now user (download account_id from_str to_str) =
      download_csv t texts sorted date end_of_day now user account_id from_str to_str
