-- ===== src/Commands.antt =====
-- src/Commands: what a chat line means.
pub mod Syntax
pub mod Binding
pub mod Router
pub mod Resolver
pub mod Targeting
