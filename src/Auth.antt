-- ===== src/Auth.antt =====
-- pkg/auth: sessions and accounts.
pub mod Session
pub mod Account
pub mod Metadata
