-- ===== src/Handler.antt =====
-- internal/handler: the HTTP endpoints. Decoding of JSON is done by the time a request is here.
pub mod Transfers
pub mod Funds
pub mod Accounts
pub mod Sessions
mod Tests
