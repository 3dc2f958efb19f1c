-- ===== src/Base.antt =====
-- src/base: what every other part shares. `Types` and `Request` are message_types.rs, `Outcome` is
-- how a fallible call ends, `Access` and `Groups` are utils.rs.
pub mod Outcome
pub mod Types
pub mod Request
pub mod Response
pub mod Access
