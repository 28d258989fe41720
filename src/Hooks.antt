-- ===== src/Hooks.antt =====
-- src/Hooks: services that listen to the engine.
pub mod PendingConVarQueries
