-- ===== src/Session.antt =====
-- internal/session and the queries that it makes of Postgres (internal/store).
pub mod Store
pub mod Service
pub mod Operations
pub mod Valid
