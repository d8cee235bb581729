-- ===== src/Core.antt =====
-- The engine's shared state, src/core.
pub mod NetworkState
