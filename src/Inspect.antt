-- ===== src/Inspect.antt =====
-- The inspection commands' own logic (src/commands/inspect/).
pub mod Context
pub mod Transaction
