-- ===== src/Leaderboard.antt =====
-- internal/leaderboard: the boards.
pub mod Keys
pub mod Redis
pub mod Submit
pub mod Pages
pub mod Rebuild
pub mod Username
