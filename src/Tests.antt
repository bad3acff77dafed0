-- ===== src/Tests.antt =====
-- Runs of the definitions on small inputs, and the theorems applied to such inputs.
pub mod Samples
pub mod Tokens
pub mod Templates
pub mod Parser
pub mod Groups
