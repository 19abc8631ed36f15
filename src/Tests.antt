-- ===== src/Tests.antt =====
-- Concrete inputs, and the theorems applied to them.
mod Auth
mod Boards
mod Floats
mod Games
mod Leaderboard
mod Limits
mod Sessions
