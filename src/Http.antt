-- ===== src/Http.antt =====
-- The exceptions that the services throw (NestJS's HTTP exceptions and plain errors), and a method
-- call: state, which stays as it was written after a throw, and a result.
-- Source: src/common/utils/error.ts, src/common/filters/global-exception.filter.ts.
pub mod Request
pub mod Filter
pub mod Logs
pub mod Envelope
pub mod Action
pub mod Exception
pub mod Inversion
pub mod Keeping
