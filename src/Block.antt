-- ===== src/Block.antt =====
-- Block inspection (src/commands/inspect/block.rs).
pub mod Target
pub mod Merkle
pub mod AuthRoot
pub mod Report
mod Tests
