-- ===== src/Outbound.antt =====
-- crates/amk-outbound: assembly, signing and delivery of outgoing mail.
pub mod Errors
pub mod Sanitiser
pub mod Recipients
pub mod Signing
pub mod Attachments
pub mod Build
pub mod Delivery
