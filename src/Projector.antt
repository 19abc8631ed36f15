-- ===== src/Projector.antt =====
-- internal/projector/projector.go: a sweep publishes the scores that are not marked as projected,
-- and marks each one once it is published. Each event meets an environment of its own.
pub mod Sweep
use podium.Base.{
  ℕ, ◌+◌, Bool, true, false, Option, none, some, List, [], ◌∷◌, leb, if◌then◌else◌, take,
}
use podium.Games.Common.{Time}
use podium.Session.Store.{
  GameSession, ScoreEvent, Store, Failure, unavailable, load, mark, Env, is_active, close,
  mark_score_event_projected,
}
use podium.Session.Operations.{World, Submit}

-- WHERE status = 'active' AND started_at < $1
abbrev pub abandon_stale : Time → Time → Option GameSession → Option GameSession
abandon_stale before at none = none
abandon_stale before at (some row) = some (
    if is_active row.status then (if leb before row.started_at then row else close at row) else row)

module _ {F : Type 0} where
  abbrev pub is_pending : ScoreEvent F → Bool
  is_pending e = is_unmarked e.projected_at
    where
      is_unmarked : Option Time → Bool
      is_unmarked none = true
      is_unmarked (some at) = false

  -- ORDER BY id
  unfoldable pub insert_event : ScoreEvent F → List (ScoreEvent F) → List (ScoreEvent F)
  insert_event e [] = e ∷ []
  insert_event e (x ∷ xs) =
      let rest = insert_event e xs in if leb e.id x.id then e ∷ x ∷ xs else x ∷ rest

  -- WHERE projected_at IS NULL ORDER BY id
  unfoldable pub pending : List (ScoreEvent F) → List (ScoreEvent F)
  pending [] = []
  pending (e ∷ es) = let rest = pending es in if is_pending e then insert_event e rest else rest

  -- ListUnprojectedScoreEvents
  unfoldable pub list_unprojected_score_events : ℕ → Store F → List (ScoreEvent F)
  list_unprojected_score_events limit st = take limit (pending st.events)

  -- AbandonStaleSessions
  unfoldable pub abandon_stale_sessions : Env → Time → Store F → Store F
  abandon_stale_sessions env before st = record st {
    sessions = λ i. abandon_stale before env.db_now (st.sessions i);
  }

module _ {F B P : Type 0} (submit : Submit B P) where
  abbrev pub marked_after : Env → ScoreEvent F → World F B → Option P × B → Bool × World F B
  marked_after env e w (none, boards) = (false, record w { boards = boards })
  marked_after env e w (some p, boards) =
      if env.fails mark
      then (false, record w { boards = boards })
      else (true, record { store = mark_score_event_projected env e.id w.store; boards = boards })

  -- One event: published, then marked. `false` when either failed.
  unfoldable pub publish : Env → ScoreEvent F → World F B → Bool × World F B
  publish env e w = marked_after env e w (submit e.user_id e.game e.points e.achieved_at w.boards)

  -- How many were published and marked, and the failure that ended the sweep, if any.
  unfoldable pub sweep_events :
      (ℕ → Env) → List (ScoreEvent F) → ℕ → World F B → (ℕ × Option Failure) × World F B
  sweep_events envs [] projected w = ((projected, none), w)
  sweep_events envs (e ∷ es) projected w =
      let r = publish (envs e.id) e w in
      let rest = sweep_events envs es (projected + 1) r.1 in
      if r.0 then rest else ((projected, some unavailable), r.1)

  unfoldable pub sweep : Env → (ℕ → Env) → ℕ → World F B → (ℕ × Option Failure) × World F B
  sweep env envs batch w =
      if env.fails load
      then ((0, some unavailable), w)
      else sweep_events envs (list_unprojected_score_events batch w.store) 0 w
