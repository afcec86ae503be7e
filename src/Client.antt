-- ===== src/Client.antt =====
-- The client's side (crates/nmux-cli/src/local).
pub mod StateFile
pub mod Surface
pub mod Receive
pub mod Cache
