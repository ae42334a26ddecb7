-- ===== src/Statements/Rows.antt =====
-- The rows of a statement, and their totals.
-- Source: src/statements/statements.service.ts.
use vault_api.Prelude.{
  ℕ, ◌+◌, ◌≡◌, ◌≢◌, refl, arith, String, Bool, Option, none, some, List, [], ◌∷◌, map, ◌==◌, nat_eq,
  option_eq, string_eq, if◌then◌else◌,
}
use vault_api.Prelude.Int.{ℤ}
use vault_api.Transactions.Entity.{
  Transaction, TransactionType, transfer, deposit, withdrawal, payment, reversal, TransactionStatus,
  pending, processing, completed, failed, reversed,
}

-- What JavaScript makes of dates and numbers: `stamp` is `toISOString().replace('T', ' ').slice(0, 19)`,
-- `day` is `toISOString().slice(0, 10)`, `show` the text of an amount, `parse_float` its reading and
-- `to_fixed` its text with two decimals.
pub record Texts : Type 0 where
  pub stamp : ℕ → String
  pub iso : ℕ → String
  pub day : ℕ → String
  pub show : ℕ → String
  pub show_signed : ℤ → String
  pub show_count : ℕ → String
  pub parse_float : String → ℕ
  pub to_fixed : ℕ → String

-- A number is read back from its text, which is not empty; "0" is zero.
pub record AreReadable (texts : Texts) : Type 0 where
  pub parse_float-show : (n : ℕ) → texts.parse_float (texts.show n) ≡ n
  pub show_filled : (n : ℕ) → texts.show n ≢ ""
  pub parse_float_zero : texts.parse_float "0" ≡ 0

pub record StatementRow : Type 0 where
  pub date : String
  pub reference : String
  pub description : String
  pub type : String
  pub credit : String
  pub debit : String
  pub fee : String
  pub status : String

unfoldable pub type_text : TransactionType → String
type_text transfer = "transfer"
type_text deposit = "deposit"
type_text withdrawal = "withdrawal"
type_text payment = "payment"
type_text reversal = "reversal"

unfoldable pub status_text : TransactionStatus → String
status_text pending = "pending"
status_text processing = "processing"
status_text completed = "completed"
status_text failed = "failed"
status_text reversed = "reversed"

-- `tx.description ?? ''`
abbrev or_empty : Option String → String
or_empty none = ""
or_empty (some text) = text

abbrev pub is_credit : ℕ → Transaction → Bool
is_credit account_id tx = tx.destination_account_id == some account_id

module _ (texts : Texts) where
  unfoldable pub row_of : ℕ → Transaction → StatementRow
  unfolding type_text status_text
  row_of account_id tx = record {
    date = texts.stamp tx.created_at;
    reference = tx.reference;
    description = or_empty tx.description;
    type = type_text tx.type;
    credit = if is_credit account_id tx then texts.show tx.amount else "";
    debit = if is_credit account_id tx then "" else texts.show tx.amount;
    fee = texts.show tx.fee;
    status = status_text tx.status;
  }

  -- `parseFloat(text || '0')`
  abbrev pub number_of : String → ℕ
  number_of text = texts.parse_float (if text == "" then "0" else text)

  -- `rows.reduce((s, r) => s + …, 0)`
  unfoldable pub total : (StatementRow → String) → List StatementRow → ℕ
  total column [] = 0
  total column (r ∷ rows) = number_of (column r) + total column rows

  -- The sum of what some transactions count.
  unfoldable pub sum : (Transaction → ℕ) → List Transaction → ℕ
  sum count [] = 0
  sum count (x ∷ l) = count x + sum count l

  -- The totals at the foot of a statement are those of the transactions: what reached the account, what
  -- left it, and all of the fees, also those of the transfers that the account received and that their
  -- senders paid.
  pub total-row_of :
      AreReadable texts
      → (account_id : ℕ) (l : List Transaction)
      → let rows = map (row_of account_id) l in
        (total (λ r. r.credit) rows ≡ sum (λ x. if is_credit account_id x then x.amount else 0) l)
        × (total (λ r. r.debit) rows ≡ sum (λ x. if is_credit account_id x then 0 else x.amount) l)
        × (total (λ r. r.fee) rows ≡ sum (λ x. x.fee) l)
  unfolding total sum row_of
  total-row_of R account_id [] = (refl, refl, refl)
  total-row_of R account_id (x ∷ l) =
      let (credits, debits, fees) = total-row_of R account_id l in
      let read = R.parse_float-show x.amount in
      let filled = R.show_filled x.amount in
      let zero_ = R.parse_float_zero in
      let read_fee = R.parse_float-show x.fee in
      let filled_fee = R.show_filled x.fee in (ground arith, ground arith, ground arith)
