-- ===== src/Memory.antt =====
-- src/Engine/Memory: searching the game's modules for byte patterns.
pub mod BytePattern
