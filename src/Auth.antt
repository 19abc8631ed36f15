-- ===== src/Auth.antt =====
-- internal/auth: accounts and refresh tokens.
pub mod Tokens
pub mod Service
