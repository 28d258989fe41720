-- ===== src/Players.antt =====
-- src/Players: who is connected, and who may act on whom.
pub mod Roster
pub mod Policy
