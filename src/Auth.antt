-- ===== src/Auth.antt =====
-- internal/auth: tokens, the blacklist, and the middleware that protects a handler.
pub mod Token
pub mod Middleware
pub mod Service
pub mod Issuing
pub mod Enrollment
pub mod Registration
pub mod Residue
pub mod Tickets
pub mod Login
pub mod Admission
pub mod Entry
pub mod Guards
pub mod Revocation
mod Tests
