-- ===== src/Core/Labels.antt =====
-- crates/amk-core/src/labels.rs: `Flags` has the mask of `include_*` flags, `Admission` who sees what,
-- `Redaction` threads with hidden members, `Mutation` which labels a client may change; the other
-- modules have the proofs.
pub mod Flags
pub mod Admission
pub mod Redaction
pub mod Mutation
pub mod Masks
pub mod Verdicts
pub mod Pushdown
pub mod Patches
pub mod Violations
