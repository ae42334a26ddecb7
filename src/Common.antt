-- ===== src/Common.antt =====
-- Code that the components share.
pub mod Currency
pub mod Pagination
pub mod Validators
pub mod ParsePagination
