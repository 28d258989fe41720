-- ===== src/Tests.antt =====
-- Runs at fixed inputs: each theorem with hypotheses at an input that meets them.
mod Strings
mod Memory
mod Signals
mod Workshop
mod Commands
mod Slots
mod Hooks
mod Host
mod Callbacks
mod Menu
mod Players
mod Router
mod Plugins
mod MenuStack
mod Ui
mod Time
