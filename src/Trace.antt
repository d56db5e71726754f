-- ===== src/Trace.antt =====
-- The iterative trace engine, backend/internal/trace.
pub mod Dns
pub mod Records
pub mod State
pub mod Exchange
pub mod Support
pub mod Referral
pub mod Response
pub mod Verdict
pub mod Engine
pub mod Run
