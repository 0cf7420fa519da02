-- ===== src/Core/Scope.antt =====
-- crates/amk-core/src/scope.rs: `Denials` has the errors, `Window` the filter on rows, `Mounts` the
-- intersection of a credential with a mount, `Identities` the reading of a credential; the other
-- modules have the proofs.
pub mod Denials
pub mod Window
pub mod Mounts
pub mod Identities
pub mod Rows
pub mod Intersection
pub mod Binding
