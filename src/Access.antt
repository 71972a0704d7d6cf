-- ===== src/Access.antt =====
-- Who may do what (shared/auth).
pub mod Capabilities
pub mod Scopes
pub mod Grants
pub mod Validation
pub mod Validated
pub mod Middleware
pub mod Replies
