-- ===== src/Ui.antt =====
-- src/Ui: what screens are sent.
pub mod WriteCache
