-- ===== src/Qemu.antt =====
-- becky-fx-qemu/src: the parts of the provider for qemu machines.
pub mod Errors
pub mod Shell
pub mod Commands
pub mod Events
pub mod Manager
pub mod Images
pub mod Config
pub mod Paths
pub mod Command
pub mod Instance
mod Examples
