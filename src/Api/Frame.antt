-- ===== src/Api/Frame.antt =====
-- The parts of the application leave one another's tables alone: whatever they do, returned or thrown,
-- the rows of a table that is not theirs are as they were. People and Records are stated for any such
-- table, of accounts or of wallets, and so are Money and Reports.
pub mod People
pub mod Records
pub mod Reports
pub mod Money
use vault_api.Prelude.{ℕ, ◌≡◌}
use vault_api.Orm.{Repository, row}
use vault_api.Accounts.Entity.{Account}

-- No row of a table has changed.
abbrev pub SameRows : {F Db : Type 0} → (F → ℕ) → Repository F Db → Db → Db → Type 0
SameRows key rows before after = (j : ℕ) → row key rows j after ≡ row key rows j before

abbrev pub SameAccounts : {Db : Type 0} → Repository Account Db → Db → Db → Type 0
SameAccounts = SameRows (λ a. a.id)
