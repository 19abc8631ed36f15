-- ===== src/Session/Service.antt =====
-- internal/session/session.go: the session service up to the commit. An operation runs its
-- transaction on the tables; a failure gives no tables, so that those before it stay. The part
-- after the commit is Session.Operations.
use podium.Base.{ℕ, Bool, true, false, Option, none, some, Result, ok, err, ◌==◌, if◌then◌else◌}
use podium.Base.Int.{ℤ}
use podium.Games.Common.{Bytes, Time}
use podium.Games.Rng.{new_seed}
use podium.Games.Float64.{Float64}
use podium.Games.Registry.{Slug, Definition, Registry, get, points_of}
use podium.Session.Store.{
  Status, is_active, GameSession, ScoreEvent, Store, Failure, not_found, already_finished,
  unavailable, draw_seed, begin, abandon, create, load, lock, save, finish, insert_score,
  load_score, commit, Env, Tx, ◌>>=◌, pure, fail, lift_game, attempt, abandon_active_sessions,
  create_game_session, get_game_session, save_game_session_state, finish_game_session, event_of,
  create_score_event,
}

-- What a finished session earned, as a caller sees it.
pub record Score (F : Type 0) : Type 0 where
  pub event_id : ℕ
  pub game : Slug
  pub raw : F
  pub points : ℤ
  pub achieved_at : Time

pub record Session (F P : Type 0) : Type 0 where
  pub id : ℕ
  pub game : Slug
  pub status : Status
  pub view : Bytes
  pub moves : ℕ
  pub started_at : Time
  pub deadline_at : Option Time
  pub score : Option (Score F)
  pub placement : Option P

unfoldable pub score_from : {F : Type 0} → ScoreEvent F → Score F
score_from e = record {
  event_id = e.id;
  game = e.game;
  raw = e.raw;
  points = e.points;
  achieved_at = e.achieved_at;
}

unfoldable pub session_from :
    {F P : Type 0} → ℕ → GameSession → Bytes → Option (Score F) → Session F P
session_from id row view score = record {
  id = id;
  game = row.game;
  status = row.status;
  view = view;
  moves = row.moves;
  started_at = row.started_at;
  deadline_at = row.deadline_at;
  score = score;
  placement = none;
}

-- A transaction: begun, run on the tables, and committed; a failure of any part rolls it back. A
-- commit that fails and is done all the same is `left_by` of Operations.
abbrev pub committed :
    {F A : Type 0} → Env → Store F → Result Failure (A × Store F) → Result Failure (A × Store F)
committed env st (err e) = err e
committed env st (ok r) = if env.fails commit then err unavailable else ok r

unfoldable pub transact : {F A : Type 0} → Env → Tx F A → Tx F A
transact env body st = if env.fails begin then err unavailable else committed env st (body st)

abbrev pub owned : {F : Type 0} → ℕ → GameSession → Tx F (Unit {0})
owned user row = if row.user_id == user then pure tt else fail not_found

abbrev pub open_ : {F : Type 0} → GameSession → Tx F (Unit {0})
open_ row = if is_active row.status then pure tt else fail already_finished

module _ (f : Float64) (registry : Registry f.Float) where
  open f use {Float}

  -- settle: the session is finished, and its score recorded.
  unfoldable pub settle :
      Env → ℕ → GameSession → Definition Float → Tx Float (GameSession × ScoreEvent Float)
  settle env id row d = do
    raw ← lift_game (d.engine.raw row.state)
    done ← attempt env finish (finish_game_session env id)
    event ←
        attempt env insert_score
          (create_score_event env row.user_id id row.game raw (points_of f d raw))
    pure (done, event)

  -- scoreFor: no score while a session is active, or where none was recorded.
  abbrev pub present : GameSession → Option (ScoreEvent Float) → Tx Float (Option (Score Float))
  present row none = pure none
  present row (some e) = lift_game (get registry row.game) >>= λ d. pure (some (score_from e))

  unfoldable pub score_for : Env → ℕ → GameSession → Tx Float (Option (Score Float))
  score_for env id row =
      if is_active row.status
      then pure none
      else attempt env load_score (λ st. present row (event_of id st.events) st)

  unfoldable pub start : {P : Type 0} → Env → ℕ → Slug → Tx Float (Session Float P)
  start env user slug = do
    d ← lift_game (get registry slug)
    seed ← attempt env draw_seed (pure (new_seed env.random))
    e ← lift_game (d.engine.start seed env.now)
    row ← transact env do
      _ ← attempt env abandon (abandon_active_sessions env user slug)
      attempt env create (create_game_session env user slug seed e.0 e.2)
    pure (session_from env.new_id row e.1 none)

  unfoldable pub get_session : {P : Type 0} → Env → ℕ → ℕ → Tx Float (Session Float P)
  get_session env user id = do
    row ← attempt env load (get_game_session id)
    _ ← owned user row
    d ← lift_game (get registry row.game)
    view ← lift_game (d.engine.view row.state)
    score ← score_for env id row
    pure (session_from id row view score)

  -- The part of `Move` inside its transaction: the row after it, the view, when to respond, and
  -- the event if the move ended the game.
  abbrev pub Applied : Type 0
  Applied = GameSession × Bytes × Option Time × Option (ScoreEvent Float)

  unfoldable pub settle_if_done :
      Env
      → ℕ
      → GameSession
      → Definition Float
      → Bool
      → Tx Float (GameSession × Option (ScoreEvent Float))
  settle_if_done env id row d true = settle env id row d >>= λ r. pure (r.0, some r.1)
  settle_if_done env id row d false = pure (row, none)

  unfoldable pub apply_move : Env → ℕ → ℕ → Bytes → Tx Float Applied
  apply_move env user id raw = do
    row ← attempt env lock (get_game_session id)
    _ ← owned user row
    _ ← open_ row
    d ← lift_game (get registry row.game)
    m ← lift_game (d.engine.move row.state raw env.now)
    updated ← attempt env save (save_game_session_state id m.0)
    r ← settle_if_done env id updated d m.2.done
    pure (r.0, m.1, m.2.hold_until, r.1)

  -- The part of `Finish` inside its transaction. On a session that has ended it reads the score
  -- that was recorded and writes nothing (`none`); on an active one it settles (`some`).
  abbrev pub Ended : Type 0
  Ended = GameSession × Bytes × Score Float × Bool

  abbrev pub recorded : GameSession → Bytes → Option (Score Float) → Tx Float Ended
  recorded row view none = fail already_finished
  recorded row view (some score) = pure (row, view, score, false)

  unfoldable pub end_row : Env → ℕ → GameSession → Definition Float → Bytes → Tx Float Ended
  end_row env id row d view =
      if is_active row.status
      then (settle env id row d >>= λ r.
          attempt env commit (pure (r.0, view, score_from r.1, true)))
      else (score_for env id row >>= recorded row view)

  unfoldable pub end_session : Env → ℕ → ℕ → Tx Float Ended
  end_session env user id = do
    row ← attempt env lock (get_game_session id)
    _ ← owned user row
    d ← lift_game (get registry row.game)
    view ← lift_game (d.engine.view row.state)
    end_row env id row d view
