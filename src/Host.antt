-- ===== src/Host.antt =====
-- src/Host: what the plugins of a server share.
pub mod ButtonPressMessage
pub mod CallbackList
pub mod CommandNames
pub mod PublishedInterfaces
pub mod PluginDependencies
