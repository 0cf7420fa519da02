-- ===== src/Core/Threading.antt =====
-- crates/amk-core/src/threading.rs: which thread an inbound message belongs to. `Links` reads the
-- linkage headers, `Assigner` is the default rule, `MemoryIndex` the index in memory; the other modules
-- have the proofs.
pub mod Links
pub mod Assigner
pub mod MemoryIndex
pub mod Canonical
pub mod Chains
pub mod Assignments
pub mod Indexing
