-- ===== src/Policy.antt =====
-- The input and egress policies, backend/internal/policy.
pub mod Domain
pub mod Destination
