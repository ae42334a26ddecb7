-- ===== src/Tests/StatementTests.antt =====
-- A statement of ada's account, the hourly job, and pages.
use Prim.Native.Char.{Char, char, code}
use vault_api.Prelude.{
  zero, suc, ap, ℕ, String, ◌≤◌, ◌≡◌, ◌↔◌, ◌≢◌, refl, arith, Option, some, none, List, [], ◌∷◌, map,
  Among, ◌==◌, nat_eq, string_eq, if◌then◌else◌, option_eq,
}
use vault_api.Prelude.Int.{ℤ, pos}
use vault_api.Orm.{row}
use vault_api.Transactions.Entity.{Transaction, pending, completed}
use vault_api.Transactions.Settlement.{transaction}
use vault_api.Statements.{transactions_of}
use vault_api.Statements.Rows.{Texts, AreReadable, row_of, total, sum, is_credit, total-row_of}
use vault_api.Statements.Listing.{Touches, Among-transactions_of}
use vault_api.Admin.{expire_stuck_transactions}
use vault_api.Admin.Expiry.{Swept, expire_stuck_transactions-ok}
use vault_api.Tests.Database.{Memory, tables, tables-AreLawful}
use vault_api.Tests.MoneyTests.{keyed_receipt, bank}

-- A number as a bar and that many strokes after it.
abbrev strokes : ℕ → String
strokes zero = ""
strokes (suc n) = String.◌∷◌ (char 124 tt) (strokes n)

abbrev barred : ℕ → String
barred n = String.◌∷◌ (char 124 tt) (strokes n)

abbrev size : String → ℕ
size String.[] = 0
size (String.◌∷◌ c s) = suc (size s)

abbrev bars_read : String → ℕ
bars_read String.[] = 0
bars_read (String.◌∷◌ c s) = if code c == 48 then 0 else size s

size-strokes : (n : ℕ) → size (strokes n) ≡ n
size-strokes zero = refl
size-strokes (suc n) = ap suc (size-strokes n)

size_filled : (c : Char) (s : String) → ◌≢◌ {A = String} (String.◌∷◌ c s) ""
size_filled c s same = absurd (omega (arith, ap size same))

abbrev texts : Texts
texts = record {
  stamp = λ time. "2024-01-01 00:00:00";
  iso = λ time. "2024-01-01T00:00:00.000Z";
  day = λ time. "2024-01-01";
  show = barred;
  show_signed = λ z. "";
  show_count = barred;
  parse_float = bars_read;
  to_fixed = barred;
}

texts-AreReadable : AreReadable texts
unfolding nat_eq
texts-AreReadable = record {
  parse_float-show = λ n. size-strokes n;
  show_filled = λ n. size_filled (char 124 tt) (strokes n);
  parse_float_zero = refl;
}

abbrev small : Transaction
small = record keyed_receipt { amount = 6; fee = 2 }

abbrev incoming : Transaction
incoming = record small { amount = 3; source_account_id = some 2; destination_account_id = some 1 }

total-row_of_example :
    let rows = map (row_of texts 1) (small ∷ incoming ∷ []) in
    (total texts (λ r. r.credit) rows
      ≡ sum texts (λ x. if is_credit 1 x then x.amount else 0) (small ∷ incoming ∷ []))
    × (total texts (λ r. r.debit) rows
        ≡ sum texts (λ x. if is_credit 1 x then 0 else x.amount) (small ∷ incoming ∷ []))
    × (total texts (λ r. r.fee) rows ≡ sum texts (λ x. x.fee) (small ∷ incoming ∷ []))
total-row_of_example = total-row_of texts texts-AreReadable 1 (small ∷ incoming ∷ [])

-- The fee of the transfer that ada received is in the total of ada's fees.
fees_of_both : total texts (λ r. r.fee) (map (row_of texts 1) (small ∷ incoming ∷ [])) ≡ 4
unfolding total string_eq row_of nat_eq
fees_of_both = refl

abbrev as_stored : List Transaction → List Transaction
as_stored l = l

Among-transactions_of_example :
    Among small (transactions_of tables texts as_stored 1 0 2000 bank) ↔ (
      (transaction tables tables-AreLawful 40 bank ≡ some small)
      × Touches tables tables-AreLawful texts as_stored (λ x l. (λ h. h, λ h. h)) 1 small
      × (small.status ≡ completed)
      × (0 ≤ 1000)
      × (1000 ≤ 2000))
Among-transactions_of_example =
    Among-transactions_of tables tables-AreLawful texts as_stored (λ x l. (λ h. h, λ h. h)) 1 0 2000
      bank small

abbrev waiting : Transaction
waiting = record small { status = pending }

abbrev stale_bank : Memory
stale_bank = record bank { transaction_rows = waiting ∷ [] }

abbrev cleaned : Memory
cleaned = (expire_stuck_transactions tables.transactions 2000000 stale_bank).1

expire_stuck_transactions-ok_example :
    Swept 2000000
      (row (λ x. x.id) tables.transactions 40 stale_bank)
      (row (λ x. x.id) tables.transactions 40 cleaned)
expire_stuck_transactions-ok_example =
    expire_stuck_transactions-ok tables.transactions tables-AreLawful.transactions 2000000 40
      stale_bank

abbrev parse_int : String → Option ℤ
parse_int s = if s == "500" then some (pos 500) else none
