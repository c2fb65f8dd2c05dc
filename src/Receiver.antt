-- ===== src/Receiver.antt =====
-- internal/receiver: the master's store of worker snapshots.
pub mod Validate
pub mod Labels
pub mod Stubs
pub mod World
pub mod Engine
pub mod Reconcile
pub mod Store
pub mod Server
pub mod App
pub mod Tests
