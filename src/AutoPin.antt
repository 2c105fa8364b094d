-- ===== src/AutoPin.antt =====
-- autopin.go: the rules for automatic pinning and the manager that keeps them on disk.
pub mod Rule
pub mod Matching
pub mod Manager
pub mod Persistence
pub mod Identity
pub mod Restart
pub mod NewId
mod Tests
