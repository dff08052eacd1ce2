-- ===== src/Sync.antt =====
-- Wallet synchronisation (src/commands/wallet/sync.rs).
pub mod Range
pub mod Batch
pub mod World
pub mod Steps
pub mod Running
pub mod Quiet
pub mod Order
pub mod Cache
pub mod Rewind
mod Tests
