-- ===== src/Leaderboard/Submit.antt =====
-- internal/leaderboard/lua/submit.lua, which Redis runs with nothing between its commands, and
-- Board.Submit of internal/leaderboard/leaderboard.go.
pub mod Effect
pub mod Lasting
pub mod Totals
pub mod Bests
use podium.Base.{
  ℕ, ◌+◌, Bool, true, false, Option, none, some, List, [], ◌∷◌, ◌++◌, ◌==◌, if◌then◌else◌,
}
use podium.Base.Int.{ℤ, pos, ltb_ℤ, ◌-ℤ◌}
use podium.Games.Common.{Time}
use podium.Games.Registry.{Slug}
use podium.Leaderboard.Keys.{
  Period, periods, ttl, Calendar, Scope, global, game, scope_of, scope_name, Key, key,
}
use podium.Leaderboard.Redis.{
  SortedSets, Row, row_score, or_zero, count_above, Boards, modify, expire_new, is_gone,
}

-- What a score adds to the cross-game total: all of it when the user had none, the difference when
-- it is better, and nothing (`none`) otherwise.
unfoldable pub improvement : Option ℤ → ℤ → Option ℤ
improvement none points = some points
improvement (some previous) points =
    if ltb_ℤ previous points then some (points -ℤ previous) else none

abbrev pub is_improved : Option ℤ → Bool
is_improved none = false
is_improved (some d) = true

pub record Standing : Type 0 where
  pub points : ℤ
  pub rank : ℕ

-- The five values that the script returns for a period.
pub record Placed : Type 0 where
  pub improved : Bool
  pub on_game : Standing
  pub on_global : Standing

-- What became of the script's call: an error may leave it run or not.
pub data Call : Type 0 where
  answered lost refused : Call

module _ (r : SortedSets) where
  open r use {Set, empty, rows, zadd, zincrby}

  abbrev pub no_boards : Boards Set
  no_boards k = record { set = empty; expires = none }

  abbrev pub zscore : ℕ → Key → Boards Set → Option ℤ
  zscore m k boards = row_score m (rows (boards k).set)

  -- The boards as Redis has them at a time: a key that has run out is no key.
  unfoldable pub live : ℕ → Boards Set → Boards Set
  live clock boards k =
      if is_gone clock (boards k).expires then record { set = empty; expires = none } else boards k

  unfoldable pub expire : ℕ → ℕ → Key → Boards Set → Boards Set
  expire clock life k boards =
      if life == 0 then boards else modify k (λ e. expire_new (clock + life) (rows e.set) e) boards

  unfoldable pub write : Key → Key → ℕ → ℤ → Option ℤ → Boards Set → Boards Set
  write game_key global_key m points none boards = boards
  write game_key global_key m points (some d) boards =
      modify global_key (λ e. record e { set = zincrby m d e.set })
        (modify game_key (λ e. record e { set = zadd m points e.set }) boards)

  unfoldable pub standing : ℕ → Key → Boards Set → Standing
  standing m k boards =
      let score = or_zero (zscore m k boards) in
      record { points = score; rank = count_above score (rows (boards k).set) + 1 }

  -- One turn of the script's loop.
  unfoldable pub place : ℕ → ℕ → Key → Key → ℕ → ℤ → Boards Set → Placed × Boards Set
  unfolding expire write standing improvement
  place clock life game_key global_key m points boards =
      let d = improvement (zscore m game_key boards) points in
      let after =
        expire clock life global_key
          (expire clock life game_key (write game_key global_key m points d boards)) in
      (
        record {
          improved = is_improved d;
          on_game = standing m game_key after;
          on_global = standing m global_key after;
        },
        after,
      )

  unfoldable pub place_all :
      Calendar
      → ℕ
      → Slug
      → ℕ
      → ℤ
      → Time
      → List Period
      → Boards Set
      → List (Period × Placed) × Boards Set
  place_all c clock slug m points at [] boards = ([], boards)
  place_all c clock slug m points at (p ∷ ps) boards =
      let (placed, after) =
        place clock (ttl p) (key c (scope_of slug) p at) (key c global p at) m points boards in
      let (rest, last) = place_all c clock slug m points at ps after in ((p, placed) ∷ rest, last)

  -- The boards that a placement announces: those of the periods that improved.
  unfoldable pub announced : Slug → List (Period × Placed) → List (Scope × Period)
  announced slug [] = []
  announced slug ((p, placed) ∷ rest) =
      let more = announced slug rest in
      if placed.improved then (scope_of slug, p) ∷ (global, p) ∷ more else more

  -- Board.Submit, with the time that it takes for a score without one.
  abbrev pub at_or : Time → Option Time → Time
  at_or now none = now
  at_or now (some at) = at

  abbrev pub delivered :
      Call
      → List (Period × Placed) × Boards Set
      → Boards Set
      → Option (List (Period × Placed)) × Boards Set
  delivered answered (placement, after) before = (some placement, after)
  delivered lost (placement, after) before = (none, after)
  delivered refused (placement, after) before = (none, before)

  unfoldable pub submit :
      Calendar
      → Call
      → ℕ
      → Time
      → ℕ
      → Slug
      → ℤ
      → Option Time
      → Boards Set
      → Option (List (Period × Placed)) × Boards Set
  unfolding place_all live
  submit c call clock now user slug points at boards =
      delivered call (place_all c clock slug user points (at_or now at) periods (live clock boards))
        boards
