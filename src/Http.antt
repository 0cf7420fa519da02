-- ===== src/Http.antt =====
-- crates/amk-http: the HTTP layer.
pub mod RateLimit
pub mod Pagination
pub mod Auth
pub mod ScopeExt
