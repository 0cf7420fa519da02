-- ===== src/Tests.antt =====
-- Inputs that meet the theorems' hypotheses, and the theorems applied to them.
pub mod Samples
pub mod Scopes
pub mod Keys
pub mod Visibility
pub mod Linkage
pub mod Tokens
pub mod Limits
pub mod Pages
pub mod Cursors
pub mod Outgoing
pub mod Incoming
pub mod Accepting
pub mod Requests
