-- ===== src/Time.antt =====
-- include/VoltMod/Core/Time: clocks and cooldowns.
pub mod Cooldown
