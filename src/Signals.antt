-- ===== src/Signals.antt =====
-- include/VoltMod/Core/Signals and src/Host/Plugins/CallbackList.hpp: who is called on an event, while
-- the callbacks themselves subscribe and unsubscribe.
pub mod Registry
