-- ===== src/Tests.antt =====
-- The theorems at concrete inputs, over tables kept as lists.
pub mod Database
pub mod MoneyTests
mod BankTests
mod RetryTests
pub mod Application
pub mod ApiTests
mod HttpTests
mod NoticeTests
mod TextTests
mod StatementTests
mod FeeTests
mod AccountTests
pub mod PinTests
mod WalletTests
mod WalletlessTests
mod UserTests
mod KycTests
