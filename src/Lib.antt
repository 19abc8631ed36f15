-- ===== src/Lib.antt =====
-- podium is a server of five short games with leaderboards. A player starts a session of a game,
-- sends moves, and finishes it; the server keeps the game's state, which holds the answers, marks
-- the moves, and records one score for each session, which the leaderboards project.
--
-- Modelled are the games, the sessions, the sweep of the projector, the leaderboards, the refresh
-- tokens, the rate limiter, and the channels and tickets of realtime updates:
--   internal/games/games.go: Games.Common (outcomes, errors, decodeMove), Games.Float64 (the
--     float64 operations that the points use, an interface with what IEEE 754 says), Games.Points
--     (scale, Definition.Points), Games.Engine (the adapter between typed games and stored JSON),
--     Games.Registry (definitions and Registry).
--   internal/games/rng.go: Games.Rng. SHA-256 is the parameter `Digest`.
--   internal/games/numberguess.go, memory.go, reaction.go, mathsprint.go, wordscramble.go:
--     Games.NumberGuess, Games.Memory, Games.Reaction, Games.MathSprint, Games.WordScramble, each
--     with its state as a record and start, view, move and raw as functions.
--   internal/store/db/sessions.sql.go and models.go: Session.Store. The tables are values; a query
--     is a function from tables to a result with new tables, or a failure.
--   internal/session/session.go: Session.Service has the transactions of Start, Get, Move and
--     Finish; Session.Operations what a caller sees, after the commit: the hold of a response and
--     the projection onto the leaderboards, which are the parameter `Submit`.
--   internal/projector/projector.go: Projector, the sweep that publishes what the service could not.
--   internal/leaderboard/keys.go: Leaderboard.Keys, with the lengths of months as the parameter
--     `Calendar`. Leaderboard.Redis is the interface of Redis's sorted sets.
--   internal/leaderboard/leaderboard.go and lua/submit.lua: Leaderboard.Submit and
--     Leaderboard.Pages; names.go: Leaderboard.Username; rebuild.go with the query of best scores:
--     Leaderboard.Rebuild.
--   internal/auth/service.go: Auth.Service; internal/store/db/refresh_tokens.sql.go and
--     users.sql.go: Auth.Tokens. Password hashes, signatures and SHA-256 are the parameter `Secrets`.
--   internal/ratelimit/ratelimit.go and lua/fixed_window.lua: Ratelimit.
--   internal/realtime/channel.go and ticket.go: Realtime.Channels and Realtime.Tickets.
-- The children of these modules (Bounds, Score, Halving, Letters, Refine, Lookup, Scores, Valid,
-- Sweep, Windows, Names, Effect, Lasting, Totals, Bests, Ranks, Groups, Agreement, Answered, Restores,
-- Steps, Rotation, Spent, Families) prove what holds of them; Session.Valid states when the tables
-- are valid, Session.Valid.Steps has triples on the steps of a transaction. Base has what
-- all share, Tests concrete inputs.
--
-- Numbers of Go's int that a request or a difference of times may carry are signed integers of
-- Base.Int; the others are bounded by the invariants and are natural numbers. A time is a number
-- of nanoseconds; the expiry of a key of Redis counts seconds for a board and milliseconds for a
-- rate limit or a ticket. A slice index out of range is an error value, and an
-- empty list of words one that failed to load. No recursion needs fuel but the
-- digits of a number, with one more than the number. What a request meets outside of the program
-- (clocks, random bytes, new ids, calls that fail) is a record, `Env`. Row locks make the transactions
-- on a session that is there follow each other, so that a history is a sequence of requests. Where an
-- update of many rows may miss one that a request at the same time inserts, `Env.sees` says which rows
-- it sees: the sessions that a Start abandons, the tokens of a family that a revocation ends. A commit
-- of a session's transaction that fails may be done all the same (`Env.lost`); a call of auth has its
-- `Fate`.
--
-- A history of the leaderboards is a sequence of submissions, for Redis runs the script with nothing
-- in between; a submission meets the boards without the keys that have run out by then. The theorems
-- on what the boards of a bucket hold are for the time until its first key runs out. One of auth is a
-- sequence of requests, for the claim of a token locks its row. The reads of a page, and the queries
-- of a rebuild, each meet the state of their own moment. One of a rate limit is a sequence of checks
-- and resets, where a check that fails lets its request through, as internal/httpapi/auth.go has it.
--
-- Not modelled: metrics, logs, timeouts and the texts that pages show (Summary, Rules, the name of
-- the metric in a score), which no decision reads; encoding/json, crypto/sha256 and crypto/rand, which are parameters; what is written to the cache of
-- names, the format of password hashes and the claims of access tokens; the hub of realtime updates
-- and the reports, which are further parts of the program; HTTP but for the outcome of a rate limit,
-- configuration and the commands, which are input and output.
pub mod Auth
pub mod Base
pub mod Games
pub mod Session
pub mod Projector
pub mod Leaderboard
pub mod Ratelimit
pub mod Realtime
pub mod Tests
