-- ===== src/Session/Store.antt =====
-- The tables `game_sessions` and `score_events`, and the queries of
-- internal/store/db/sessions.sql.go on them. A query reads and writes the tables and may fail, for
-- the fault that its environment says or for a constraint of the schema.
use podium.Base.{
  ℕ, ◌+◌, Bool, true, false, ◌&&◌, not, Option, none, some, List, [], ◌∷◌, Result, ok, err, ltb,
  ◌==◌, if◌then◌else◌,
}
use podium.Base.Int.{ℤ, pos, ltb_ℤ}
use text.Mathlib.Text.{◌==◌ as str_eq}
use podium.Games.Common.{Bytes, Time}
use podium.Games.Common as Games
use podium.Games.Registry.{Slug}

pub data Status : Type 0 where
  active finished abandoned : Status

abbrev pub is_active : Status → Bool
is_active active = true
is_active finished = false
is_active abandoned = false

-- A row of game_sessions; its id is its key.
pub record GameSession : Type 0 where
  pub user_id : ℕ
  pub game : Slug
  pub seed : ℕ
  pub state : Bytes
  pub status : Status
  pub moves : ℕ
  pub started_at : Time
  pub deadline_at : Option Time
  pub finished_at : Option Time

-- A row of score_events.
pub record ScoreEvent (F : Type 0) : Type 0 where
  pub id : ℕ
  pub user_id : ℕ
  pub session_id : ℕ
  pub game : Slug
  pub raw : F
  pub points : ℤ
  pub achieved_at : Time
  pub projected_at : Option Time

-- The tables: sessions by id, and the events with the newest first.
pub record Store (F : Type 0) : Type 0 where
  pub sessions : ℕ → Option GameSession
  pub events : List (ScoreEvent F)
  pub next_event : ℕ

pub data Failure : Type 0 where
  game : Games.Error → Failure
  not_found already_finished unavailable cancelled : Failure

-- The calls that can fail for a reason outside of the program.
pub data Call : Type 0 where
  draw_seed begin abandon create load lock save finish insert_score load_score commit sleep mark :
      Call

-- What a request meets outside of the program: the clocks of the host and of the database, the
-- id that the database makes up, random bytes, the calls that fail, whether a commit that fails is
-- done all the same, and the sessions that the update of a Start sees, for it does not see those
-- that a Start at the same time inserts.
pub record Env : Type 0 where
  pub now : Time
  pub db_now : Time
  pub new_id : ℕ
  pub random : List ℕ
  pub fails : Call → Bool
  pub lost : Bool
  pub sees : ℕ → Bool

-- A step of a transaction: a result with the tables after it, or a failure.
abbrev pub Tx : Type 0 → Type 0 → Type 0
Tx F A = Store F → Result Failure (A × Store F)

abbrev pub and_then :
    {F A B : Type 0} → Result Failure (A × Store F) → (A → Tx F B) → Result Failure (B × Store F)
and_then (err e) k = err e
and_then (ok (a, st)) k = k a st

infixl 5 ◌>>=◌
abbrev pub ◌>>=◌ : {F A B : Type 0} → Tx F A → (A → Tx F B) → Tx F B
◌>>=◌ m k st = and_then (m st) k

abbrev pub pure : {F A : Type 0} → A → Tx F A
pure a st = ok (a, st)

abbrev pub fail : {F A : Type 0} → Failure → Tx F A
fail e st = err e

abbrev pub lift_game : {F A : Type 0} → Result Games.Error A → Tx F A
lift_game (ok a) st = ok (a, st)
lift_game (err e) st = err (game e)

-- A call that its environment may fail.
abbrev pub attempt : {F A : Type 0} → Env → Call → Tx F A → Tx F A
attempt env call m st = if env.fails call then err unavailable else m st

abbrev pub update : {A : Type 0} → (ℕ → Option A) → ℕ → A → ℕ → Option A
update m i a j = if j == i then some a else m j

-- WHERE user_id = $1 AND game = $2 AND status = 'active'
abbrev pub is_open : ℕ → Slug → GameSession → Bool
is_open user slug row = (row.user_id == user && str_eq row.game slug) && is_active row.status

abbrev pub close : Time → GameSession → GameSession
close at row = record row { status = abandoned; finished_at = some at }

abbrev pub abandon_row : Bool → ℕ → Slug → Time → Option GameSession → Option GameSession
abandon_row seen user slug at none = none
abandon_row seen user slug at (some row) =
    some (if seen && is_open user slug row then close at row else row)

abbrev pub fresh_row : Env → ℕ → Slug → ℕ → Bytes → Option Time → GameSession
fresh_row env user slug seed state deadline = record {
  user_id = user;
  game = slug;
  seed = seed;
  state = state;
  status = active;
  moves = 0;
  started_at = env.db_now;
  deadline_at = deadline;
  finished_at = none;
}

abbrev pub max_int32 : ℕ
max_int32 = 2147483647

abbrev pub in_check : ℤ → Bool
in_check points = if ltb_ℤ points (pos 0) then false else not (ltb_ℤ (pos 10000) points)

module _ {F : Type 0} where
  unfoldable pub abandon_active_sessions : Env → ℕ → Slug → Tx F (Unit {0})
  abandon_active_sessions env user slug st = ok (
    tt,
    record st { sessions = λ i. abandon_row (env.sees i) user slug env.db_now (st.sessions i) },
  )

  -- The id is the primary key: an id that is taken refuses the row.
  abbrev pub insert_at : ℕ → GameSession → Option GameSession → Tx F GameSession
  insert_at id row (some taken) st = err unavailable
  insert_at id row none st = ok (row, record st { sessions = update st.sessions id row })

  unfoldable pub create_game_session : Env → ℕ → Slug → ℕ → Bytes → Option Time → Tx F GameSession
  create_game_session env user slug seed state deadline st =
      insert_at env.new_id (fresh_row env user slug seed state deadline) (st.sessions env.new_id) st

  -- No row is pgx.ErrNoRows, which both callers turn into ErrNotFound.
  abbrev pub found : Option GameSession → Tx F GameSession
  found none st = err not_found
  found (some row) st = ok (row, st)

  -- GetGameSession and LockGameSession.
  unfoldable pub get_game_session : ℕ → Tx F GameSession
  get_game_session id st = found (st.sessions id) st

  -- The column `moves` is an integer: one more than its largest value is refused.
  abbrev pub saved : ℕ → Bytes → Option GameSession → Tx F GameSession
  saved id state none st = err unavailable
  saved id state (some row) st =
      if ltb row.moves max_int32
      then (let row' : GameSession = record row { state = state; moves = row.moves + 1 } in
          ok (row', record st { sessions = update st.sessions id row' }))
      else err unavailable

  unfoldable pub save_game_session_state : ℕ → Bytes → Tx F GameSession
  save_game_session_state id state st = saved id state (st.sessions id) st

  -- WHERE id = $1 AND status = 'active'; no row is ErrFinished.
  abbrev pub finished_row : ℕ → Time → Option GameSession → Tx F GameSession
  finished_row id at none st = err already_finished
  finished_row id at (some row) st =
      if is_active row.status
      then (let row' : GameSession = record row { status = finished; finished_at = some at } in
          ok (row', record st { sessions = update st.sessions id row' }))
      else err already_finished

  unfoldable pub finish_game_session : Env → ℕ → Tx F GameSession
  finish_game_session env id st = finished_row id env.db_now (st.sessions id) st

  -- GetScoreEventBySession: the index on session_id is unique.
  unfoldable pub event_of : ℕ → List (ScoreEvent F) → Option (ScoreEvent F)
  event_of id [] = none
  event_of id (e ∷ es) = if e.session_id == id then some e else event_of id es

  -- A second event of a session violates the unique index, which is ErrFinished; points outside
  -- 0..10000 violate the check.
  abbrev pub scored : ScoreEvent F → Option (ScoreEvent F) → Tx F (ScoreEvent F)
  scored e (some other) st = err already_finished
  scored e none st =
      if in_check e.points
      then ok (e, record st { events = e ∷ st.events; next_event = st.next_event + 1 })
      else err unavailable

  abbrev pub new_event : Env → ℕ → ℕ → ℕ → Slug → F → ℤ → ScoreEvent F
  new_event env next user id slug raw points = record {
    id = next;
    user_id = user;
    session_id = id;
    game = slug;
    raw = raw;
    points = points;
    achieved_at = env.db_now;
    projected_at = none;
  }

  unfoldable pub create_score_event : Env → ℕ → ℕ → Slug → F → ℤ → Tx F (ScoreEvent F)
  create_score_event env user id slug raw points st =
      scored (new_event env st.next_event user id slug raw points) (event_of id st.events) st

  unfoldable pub mark_events : Time → ℕ → List (ScoreEvent F) → List (ScoreEvent F)
  mark_events at id [] = []
  mark_events at id (e ∷ es) =
      (if e.id == id then record e { projected_at = some at } else e) ∷ mark_events at id es

  -- MarkScoreEventProjected
  unfoldable pub mark_score_event_projected : Env → ℕ → Store F → Store F
  mark_score_event_projected env id st = record st { events = mark_events env.db_now id st.events }
