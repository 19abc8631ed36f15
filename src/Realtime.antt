-- ===== src/Realtime.antt =====
-- internal/realtime: what its connections rest on.
pub mod Channels
pub mod Tickets
