-- ===== src/Core.antt =====
-- crates/amk-core: the decisions on scope, permissions, labels and threads.
pub mod Scope
pub mod Permissions
pub mod Labels
pub mod Threading
pub mod Download
