-- ===== src/Leaderboard/Rebuild.antt =====
-- internal/leaderboard/rebuild.go: the boards of the current windows made again from the scores in
-- Postgres, and the query of internal/store/db/sessions.sql.go that it reads them with.
pub mod Groups
pub mod Agreement
pub mod Answered
pub mod Restores
use text.Mathlib.Text.{◌==◌ as str_eq}
use podium.Base.{
  ℕ, ◌+◌, Bool, true, false, ◌&&◌, Option, none, some, List, [], ◌∷◌, length, leb, ltb, ◌==◌,
  if◌then◌else◌,
}
use podium.Base.Int.{ℤ, ◌+ℤ◌, ltb_ℤ}
use podium.Games.Common.{Time}
use podium.Games.Registry.{Slug}
use podium.Session.Store.{ScoreEvent}
use podium.Leaderboard.Keys.{
  Period, periods, ttl, window, Calendar, Scope, global, scope_of, Key, key,
}
use podium.Leaderboard.Redis.{SortedSets, Row, Boards, modify}
use podium.Leaderboard.Submit.{Call, answered, lost, refused}

-- A user's best score in a game.
pub record Best : Type 0 where
  pub game : Slug
  pub user_id : ℕ
  pub points : ℤ

abbrev pub is_of : Slug → ℕ → Best → Bool
is_of slug n b = str_eq b.game slug && (b.user_id == n)

-- max(points), for the group of a row.
unfoldable pub raise : Best → List Best → List Best
raise e [] = e ∷ []
raise e (b ∷ bs) =
    let rest = raise e bs in
    if is_of e.game e.user_id b
    then record b { points = if ltb_ℤ b.points e.points then e.points else b.points } ∷ bs
    else b ∷ rest

abbrev pub in_window : Option (Time × Time) → Time → Bool
in_window none at = true
in_window (some (from, until)) at = leb from at && ltb at until

module _ {F : Type 0} where
  abbrev pub best_of : ScoreEvent F → Best
  best_of e = record { game = e.game; user_id = e.user_id; points = e.points }

  unfoldable pub best_from : Option (Time × Time) → List Best → List (ScoreEvent F) → List Best
  best_from w acc [] = acc
  best_from w acc (e ∷ es) =
      best_from w (if in_window w e.achieved_at then raise (best_of e) acc else acc) es

  -- BestPointsPerUserAndGame, whose groups come in some order.
  unfoldable pub best_points : Option (Time × Time) → List (ScoreEvent F) → List Best
  unfolding best_from
  best_points w es = best_from w [] es

-- The maps from users to points, and their assignments.
unfoldable pub put : ℕ → ℤ → List Row → List Row
put m s [] = (m, s) ∷ []
put m s ((n, t) ∷ rows) = let rest = put m s rows in if n == m then (m, s) ∷ rows else (n, t) ∷ rest

unfoldable pub add : ℕ → ℤ → List Row → List Row
add m d [] = (m, d) ∷ []
add m d ((n, t) ∷ rows) =
    let rest = add m d rows in if n == m then (m, t +ℤ d) ∷ rows else (n, t) ∷ rest

-- perGame[slug], filled up from `acc`.
unfoldable pub game_scores : Slug → List Row → List Best → List Row
game_scores slug acc [] = acc
game_scores slug acc (b ∷ bs) =
    game_scores slug (if str_eq b.game slug then put b.user_id b.points acc else acc) bs

unfoldable pub global_scores : List Row → List Best → List Row
global_scores acc [] = acc
global_scores acc (b ∷ bs) = global_scores (add b.user_id b.points acc) bs

pub record Report : Type 0 where
  pub keys : ℕ
  pub entries : ℕ
  pub periods : List Period

module _ (r : SortedSets) where
  open r use {Set, empty, zadd}

  abbrev pub and_then :
      {A B : Type 0}
      → Option A × Boards Set
      → (A → Boards Set → Option B × Boards Set)
      → Option B × Boards Set
  and_then (none, boards) f = (none, boards)
  and_then (some a, boards) f = f a boards

  unfoldable pub stage : List Row → Set
  stage [] = empty
  stage ((m, s) ∷ rows) = zadd m s (stage rows)

  abbrev pub lifetime : ℕ → ℕ → Option ℕ
  lifetime clock life = if life == 0 then none else some (clock + life)

  -- The last call, DEL or RENAME: an error may leave it run or not. The calls before it touch the
  -- staging key only, so an error of theirs is one of a last call that did not run.
  abbrev pub swapped : {A : Type 0} → Call → A → Boards Set → Boards Set → Option A × Boards Set
  swapped answered n after before = (some n, after)
  swapped lost n after before = (none, after)
  swapped refused n after before = (none, before)

  unfoldable pub replace_key : Call → ℕ → ℕ → Key → List Row → Boards Set → Option ℕ × Boards Set
  unfolding stage
  replace_key call clock life k [] boards =
      swapped call 0 (modify k (λ e. record { set = empty; expires = none }) boards) boards
  replace_key call clock life k (row ∷ rows) boards =
      swapped call (length (row ∷ rows))
        (modify k (λ e. record { set = stage (row ∷ rows); expires = lifetime clock life }) boards)
        boards

  -- The loop of rebuildPeriod over the games: the keys and the entries that it wrote.
  unfoldable pub rebuild_games :
      Calendar
      → (Slug → Call)
      → ℕ
      → Period
      → Time
      → List Best
      → List Slug
      → Boards Set
      → Option (ℕ × ℕ) × Boards Set
  unfolding replace_key game_scores
  rebuild_games c calls clock p now best [] boards = (some (0, 0), boards)
  rebuild_games c calls clock p now best (slug ∷ slugs) boards =
      and_then
        (replace_key (calls slug) clock (ttl p) (key c (scope_of slug) p now)
          (game_scores slug [] best) boards)
        (λ written later.
          and_then (rebuild_games c calls clock p now best slugs later)
            (λ counted last. (some (counted.0 + 1, counted.1 + written), last)))

  unfoldable pub rebuild_period :
      Calendar
      → (Slug → Call)
      → Call
      → ℕ
      → Period
      → Time
      → List Best
      → List Slug
      → Boards Set
      → Option (ℕ × ℕ) × Boards Set
  unfolding rebuild_games global_scores
  rebuild_period c calls total clock p now best slugs boards =
      and_then (rebuild_games c calls clock p now best slugs boards) (λ counted later.
        and_then
          (replace_key total clock (ttl p) (key c global p now) (global_scores [] best) later)
          (λ written last. (some (counted.0 + 1, counted.1 + written), last)))

  abbrev pub read_best :
      {F : Type 0} → Option (Time × Time) → Option (List (ScoreEvent F)) → Option (List Best)
  read_best w none = none
  read_best w (some events) = some (best_points w events)

  -- The loop of Rebuild over the periods. `history` is what each query meets, or its error.
  unfoldable pub rebuild_all :
      {F : Type 0}
      → Calendar
      → (Period → Slug → Call)
      → (Period → Call)
      → ℕ
      → (Period → Option (List (ScoreEvent F)))
      → Time
      → List Slug
      → List Period
      → Boards Set
      → Option Report × Boards Set
  unfolding rebuild_period best_points
  rebuild_all c calls totals clock history now slugs [] boards =
      (some (record { keys = 0; entries = 0; periods = [] }), boards)
  rebuild_all c calls totals clock history now slugs (p ∷ ps) boards =
      and_then (read_best (window c p now) (history p), boards)
        (λ best before.
          and_then (rebuild_period c (calls p) (totals p) clock p now best slugs before)
            (λ counted later.
              and_then (rebuild_all c calls totals clock history now slugs ps later) (λ report last.
                (
                  some (record {
                    keys = report.keys + counted.0;
                    entries = report.entries + counted.1;
                    periods = p ∷ report.periods;
                  }),
                  last,
                ))))

  -- Rebuild, from the answer of the database's clock.
  unfoldable pub rebuild :
      {F : Type 0}
      → Calendar
      → (Period → Slug → Call)
      → (Period → Call)
      → ℕ
      → (Period → Option (List (ScoreEvent F)))
      → Option Time
      → List Slug
      → Boards Set
      → Option Report × Boards Set
  unfolding rebuild_all
  rebuild c calls totals clock history now slugs boards =
      and_then (now, boards)
        (λ at before. rebuild_all c calls totals clock history at slugs periods before)
