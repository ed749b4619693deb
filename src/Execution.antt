-- ===== src/Execution.antt =====
-- The execution domain (src/execution).
pub mod Gates
pub mod Trading
