-- ===== src/Statements/Csv.antt =====
-- The text of a statement, and the reading of its quoted fields.
-- Source: src/statements/statements.service.ts.
use Prim.Native.String.append
use Prim.Native.Char.{Char, code}
use vault_api.Prelude.{
  ℕ, String, ◌<>◌, Option, none, some, List, [], ◌∷◌, map, length, ◌==◌, nat_eq, if◌then◌else◌,
}
use vault_api.Accounts.Entity.{Account}
use vault_api.Notifications.{currency_text}
use vault_api.Statements.Rows.{Texts, StatementRow, total}

-- `join`
unfoldable pub join : String → List String → String
join separator [] = ""
join separator (text ∷ []) = text
join separator (text ∷ rest) = text <> separator <> join separator rest

-- `text.replace(/"/g, '""')`: U+0022 is 34.
unfoldable pub doubled : String → String
doubled String.[] = ""
doubled (String.◌∷◌ c s) =
    let rest = doubled s in
    if code c == 34 then String.◌∷◌ c (String.◌∷◌ c rest) else String.◌∷◌ c rest

module _ (texts : Texts) where
  unfoldable pub line_of : StatementRow → String
  unfolding join doubled
  line_of r = join "," (
      ("\"" <> r.date <> "\"")
      ∷ ("\"" <> r.reference <> "\"")
      ∷ ("\"" <> doubled r.description <> "\"")
      ∷ r.type
      ∷ r.credit
      ∷ r.debit
      ∷ r.fee
      ∷ r.status
      ∷ [])

  unfoldable pub to_csv : ℕ → List StatementRow → Account → String
  unfolding line_of currency_text
  to_csv now rows account =
      let header = join "\n" (
        ("Account Number:," <> account.account_number)
        ∷ ("Currency:," <> currency_text account.currency)
        ∷ ("Balance:," <> texts.show_signed account.balance)
        ∷ ("Generated:," <> texts.iso now)
        ∷ ""
        ∷ "Date,Reference,Description,Type,Credit,Debit,Fee,Status"
        ∷ []) in
      let body = join "\n" (map line_of rows) in
      let footer = join "\n" (
        ""
        ∷ ("Total Credits:," <> texts.to_fixed (total texts (λ r. r.credit) rows))
        ∷ ("Total Debits:," <> texts.to_fixed (total texts (λ r. r.debit) rows))
        ∷ ("Total Fees:," <> texts.to_fixed (total texts (λ r. r.fee) rows))
        ∷ ("Transactions:," <> texts.show_count (length rows))
        ∷ []) in
      join "\n" (header ∷ body ∷ footer ∷ [])

-- A reader of RFC 4180, from behind the opening quote: two quotes stand for one, and a single one ends
-- the field. It answers with the field and what follows it.
abbrev with_first : Char → Option (String × String) → Option (String × String)
with_first c none = none
with_first c (some (field, rest)) = some (String.◌∷◌ c field, rest)

unfoldable pub read_quoted : String → Option (String × String)
read_quoted String.[] = none
read_quoted (String.◌∷◌ c String.[]) = if code c == 34 then some ("", "") else none
read_quoted (String.◌∷◌ c (String.◌∷◌ d s)) =
    let inner = read_quoted s in
    let next = read_quoted (String.◌∷◌ d s) in
    if code c == 34
    then if code d == 34 then with_first c inner else some ("", String.◌∷◌ d s)
    else with_first c next
