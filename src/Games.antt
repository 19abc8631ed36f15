-- ===== src/Games.antt =====
-- internal/games: the five games as pure state machines, and their mapping to points.
pub mod Common
pub mod Float64
pub mod Points
pub mod Engine
pub mod Rng
pub mod NumberGuess
pub mod Memory
pub mod Reaction
pub mod MathSprint
pub mod WordScramble
pub mod Registry
