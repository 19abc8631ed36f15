-- ===== src/Tests/Sessions.antt =====
-- The theorems on internal/session, the registry and the engine adapter, applied to concrete
-- inputs: a game of one move that earns its state, over the whole numbers.
use podium.Base.{
  length, ℕ, ◌+◌, ◌≡◌, refl, Bool, true, false, Option, none, some, List, [], ◌∷◌, ok, err, ◌==◌,
  if◌then◌else◌,
}
use podium.Base.Int.{ℤ, pos}
use podium.Games.Common.{Bytes, no_such_game, outcome}
use podium.Games.Engine.{Logic, Codec, Engine, engine_move, engine_view, engine_raw, engine_for}
use podium.Games.Engine.Refine.{Moved as EngineMoved, engine_move-Moved}
use podium.Games.Registry.{
  Slug, Definition, Json, Registry, new_registry, definitions, get, all, points_of,
}
use podium.Games.Registry.Lookup.{AllFound}
use podium.Games.Registry.Scores.{AllScore, definitions-AllScore, registry_lem}
use podium.Session.Store.{
  Status, active, finished, GameSession, ScoreEvent, Store, Call, commit, unavailable, Env, Failure,
  cancelled, event_of,
}
use podium.Session.Service.{Session, score_from, session_from, settle, start, Applied, apply_move}
use podium.Session.Operations.{World, Submit, start_op, get_op, move_op, finish_op}
use podium.Session.Valid.{IsValid}
use podium.Session.Valid.Settle.{Settled, settle-Settled}
use podium.Session.Valid.Keeps.{Started, start-Started, Moved, apply_move-Moved, Shown}
use podium.Session.Valid.Served.{Recorded, get_op-Shown, finish_op-Recorded, finish_twice}
use podium.Session.Valid.Succeeds.{finish_op_succeeds}
use podium.Session.Valid.Traffic.{
  Request, open_game, look, play_move, finish_game, served, served-IsValid,
}
use podium.Projector.{list_unprojected_score_events, sweep, abandon_stale_sessions}
use podium.Projector.Sweep.{Kept, sweep-Kept, Published, AllMarked, sweep-AllMarked}
use podium.Tests.Floats.{whole}

-- A counter: its state is one byte, and a move adds five; the second one ends the game.
abbrev counter : Logic ℤ ℕ ℕ
counter = record {
  start = λ seed now. 0;
  deadline = λ s. none;
  view = λ s. s;
  move = λ s raw now. ok (s + 5, outcome true (s == 5));
  raw = λ s. pos s;
}

abbrev read_byte : Bytes → Option ℕ
read_byte (b ∷ []) = some b
read_byte _ = none

byte_trip :
    (s : ℕ) (b : Bytes) → ◌≡◌ {A = Option Bytes} (some (s ∷ [])) (some b) → read_byte b ≡ some s
byte_trip s b e = cc

abbrev bytes : Codec ℕ ℕ
bytes = record {
  marshal = λ s. some (s ∷ []);
  unmarshal = read_byte;
  marshal_view = λ v. some (v ∷ []);
  round_trip = byte_trip;
}

engine_move-Moved_example :
    EngineMoved counter bytes (0 ∷ []) (1 ∷ []) 9 (5 ∷ [], 5 ∷ [], outcome true false)
unfolding engine_move podium.Games.Engine.decode podium.Games.Engine.encode
engine_move-Moved_example =
    engine_move-Moved counter bytes (0 ∷ []) (1 ∷ []) 9 {r = (5 ∷ [], 5 ∷ [], outcome true false)}
      refl

abbrev count_up : Definition ℤ
count_up = record {
  slug = "count-up";
  name = "Count Up";
  metric = "counted";
  lower_is_better = false;
  duration = none;
  engine = engine_for counter bytes;
  points = λ raw. raw;
}

abbrev games : Registry ℤ
games = new_registry (count_up ∷ [])

abbrev no_faults : Call → Bool
no_faults call = false

abbrev calm : Env
calm = record {
  now = 100;
  db_now = 101;
  new_id = 1;
  random = 0 ∷ 8 ∷ [];
  fails = no_faults;
  lost = false;
  sees = λ i. true;
}

abbrev empty : Store ℤ
empty = record { sessions = λ i. none; events = []; next_event = 1 }

empty-IsValid : IsValid empty
unfolding event_of
empty-IsValid = record { agrees = λ i. tt; one_event = tt; issued = tt }

-- Boards that count what was published.
abbrev publish : Submit ℕ ℕ
publish user slug points at boards = (some 1, boards + 1)

abbrev fresh : World ℤ ℕ
fresh = record { store = empty; boards = 0 }

-- A commit that is done and whose answer is lost.
abbrev no_commit : Call → Bool
no_commit commit = true
no_commit call = false

abbrev faulty : Env
faulty = record calm { fails = no_commit; lost = true }

abbrev traffic : List (Env × ℕ × Request)
traffic =
    (calm, 7, open_game "count-up")
    ∷ (faulty, 7, play_move 1 (1 ∷ []))
    ∷ (calm, 8, look 1)
    ∷ (calm, 7, finish_game 1)
    ∷ []

served-IsValid_example : IsValid (served whole games (some publish) traffic fresh).store
served-IsValid_example = served-IsValid whole games (some publish) traffic fresh empty-IsValid

-- The session that user 7 opens, its row once it is finished, and its event.
abbrev opened_row : GameSession
opened_row = record {
  user_id = 7;
  game = "count-up";
  seed = 4;
  state = 0 ∷ [];
  status = active;
  moves = 0;
  started_at = 101;
  deadline_at = none;
  finished_at = none;
}

abbrev ended_row : GameSession
ended_row = record opened_row { status = finished; finished_at = some 101 }

abbrev event : ScoreEvent ℤ
event = record {
  id = 1;
  user_id = 7;
  session_id = 1;
  game = "count-up";
  raw = pos 0;
  points = pos 0;
  achieved_at = 101;
  projected_at = none;
}

abbrev opened_store : Store ℤ
opened_store = record empty { sessions = λ i. if i == 1 then some opened_row else none }

abbrev ended_store : Store ℤ
ended_store = record {
  sessions = λ i. if i == 1 then some ended_row else opened_store.sessions i;
  events = event ∷ [];
  next_event = 2;
}

abbrev published : World ℤ ℕ
published = record {
  store = record ended_store { events = record event { projected_at = some 101 } ∷ [] };
  boards = 1;
}

abbrev opened_session : Session ℤ ℕ
opened_session = session_from 1 opened_row (0 ∷ []) none

abbrev ended_session : Session ℤ ℕ
ended_session = session_from 1 ended_row (0 ∷ []) (some (score_from event))

start-Started_example : Started whole games calm 7 "count-up" opened_session opened_store
unfolding start get new_registry engine_for podium.Games.Engine.engine_start
    podium.Games.Engine.encode podium.Session.Service.transact
    podium.Session.Store.abandon_active_sessions podium.Session.Store.create_game_session
    podium.Games.Rng.new_seed
start-Started_example =
    start-Started whole games calm 7 "count-up" empty opened_store opened_session empty-IsValid refl

opened_store-IsValid : IsValid opened_store
unfolding start get new_registry engine_for podium.Games.Engine.engine_start
    podium.Games.Engine.encode podium.Session.Service.transact
    podium.Session.Store.abandon_active_sessions podium.Session.Store.create_game_session
    podium.Games.Rng.new_seed
opened_store-IsValid =
    (start-Started whole games {P = ℕ} calm 7 "count-up" empty opened_store opened_session
      empty-IsValid refl).0

settle-Settled_example :
    Settled whole games opened_store 1 opened_row count_up ended_row event ended_store
unfolding settle engine_for engine_raw podium.Games.Engine.decode
    podium.Session.Store.finish_game_session podium.Session.Store.create_score_event event_of
    points_of podium.Games.Points.clamp
settle-Settled_example =
    settle-Settled whole games calm 1 opened_row count_up opened_store ended_store ended_row event
      opened_store-IsValid refl refl

abbrev moved_row : GameSession
moved_row = record opened_row { state = 5 ∷ []; moves = 1 }

abbrev moved_store : Store ℤ
moved_store = record opened_store {
  sessions = λ i. if i == 1 then some moved_row else opened_store.sessions i;
}

apply_move-Moved_example :
    Moved whole games calm 7 1 (1 ∷ []) opened_store (moved_row, 5 ∷ [], none, none) moved_store
unfolding apply_move podium.Session.Store.get_game_session get new_registry engine_for engine_move
    podium.Games.Engine.decode podium.Games.Engine.encode
    podium.Session.Store.save_game_session_state podium.Session.Service.settle_if_done
apply_move-Moved_example =
    apply_move-Moved whole games calm 7 1 (1 ∷ []) opened_store moved_store
      (moved_row, 5 ∷ [], none, none) opened_store-IsValid refl

abbrev opened : World ℤ ℕ
opened = record { store = opened_store; boards = 0 }

finish_op-Recorded_example :
    Recorded whole games (some publish) 7 1 ended_session.score published.store
unfolding finish_op podium.Session.Service.end_session podium.Session.Service.end_row
    podium.Session.Service.settle podium.Session.Store.get_game_session
    podium.Session.Store.finish_game_session podium.Session.Store.create_score_event
    podium.Session.Store.event_of podium.Games.Registry.get podium.Games.Registry.new_registry
    podium.Games.Registry.find podium.Games.Registry.register podium.Games.Registry.points_of
    podium.Games.Points.clamp engine_for engine_view podium.Games.Engine.decode engine_raw
    podium.Session.Operations.project podium.Session.Store.mark_score_event_projected
    podium.Session.Store.mark_events podium.Session.Service.score_for score_from session_from
finish_op-Recorded_example =
    finish_op-Recorded whole games (some publish) calm 7 1 opened published
      (record ended_session { placement = some 1 }) opened_store-IsValid refl

abbrev owner : ℕ
owner = 7

finish_twice_example :
    (ended_session.score ≡ ended_session.score) × (owner ≡ owner) × (published ≡ published)
unfolding finish_op podium.Session.Service.end_session podium.Session.Service.end_row
    podium.Session.Service.settle podium.Session.Store.get_game_session
    podium.Session.Store.finish_game_session podium.Session.Store.create_score_event
    podium.Session.Store.event_of podium.Games.Registry.get podium.Games.Registry.new_registry
    podium.Games.Registry.find podium.Games.Registry.register podium.Games.Registry.points_of
    podium.Games.Points.clamp engine_for engine_view podium.Games.Engine.decode engine_raw
    podium.Session.Operations.project podium.Session.Store.mark_score_event_projected
    podium.Session.Store.mark_events podium.Session.Service.score_for score_from session_from
finish_twice_example =
    finish_twice whole games (some publish) calm calm owner owner 1 opened published published
      (record ended_session { placement = some 1 }) ended_session opened_store-IsValid refl refl

get_op-Shown_example :
    Shown whole games 7 1 opened_store opened_session opened_store × (opened ≡ opened)
unfolding get_op podium.Session.Service.get_session podium.Session.Store.get_game_session get
    new_registry engine_for engine_view podium.Games.Engine.decode podium.Session.Service.score_for
get_op-Shown_example =
    get_op-Shown whole games (some publish) calm 7 1 opened opened opened_session
      opened_store-IsValid refl

abbrev unwritten : {S V : Type 0} → Codec S V
unwritten = record {
  marshal = λ s. none;
  unmarshal = λ b. none;
  marshal_view = λ v. none;
  round_trip = λ s b e. cc;
}

abbrev no_json : Json
no_json = record {
  reaction_codec = unwritten;
  reaction_move = λ b. none;
  math_sprint_codec = unwritten;
  math_sprint_move = λ b. none;
  memory_codec = unwritten;
  memory_move = λ b. none;
  word_scramble_codec = unwritten;
  word_scramble_move = λ b. none;
  number_guess_codec = unwritten;
  number_guess_move = λ b. none;
}

definitions-AllScore_example :
    AllScore whole (pos 9) (pos 20) (definitions whole (λ bs. bs) [] no_json)
definitions-AllScore_example =
    definitions-AllScore whole (λ bs. bs) [] no_json (pos 9) (pos 20) refl

registry_lem_example :
    let ds = definitions whole (λ bs. bs) [] no_json in
    AllFound (new_registry ds) ds
    × (all (new_registry ds) ≡ ds)
    × (get (new_registry ds) "chess" ≡ err no_such_game)
unfolding definitions podium.Games.Registry.reaction_definition
    podium.Games.Registry.math_sprint_definition podium.Games.Registry.memory_definition
    podium.Games.Registry.word_scramble_definition podium.Games.Registry.number_guess_definition
registry_lem_example =
    registry_lem whole (λ bs. bs) [] no_json "chess" (refl, (refl, (refl, (refl, (refl, tt)))))

-- The score of the finished session was not published; a sweep publishes it.
abbrev unpublished : World ℤ ℕ
unpublished = record { store = ended_store; boards = 0 }

ended_store-IsValid : IsValid ended_store
unfolding settle engine_for engine_raw podium.Games.Engine.decode
    podium.Session.Store.finish_game_session podium.Session.Store.create_score_event event_of
    points_of podium.Games.Points.clamp
ended_store-IsValid =
    (settle-Settled whole games calm 1 opened_row count_up opened_store ended_store ended_row event
      opened_store-IsValid refl refl).0

sweep-Kept_example :
    Kept publish ended_store (sweep publish calm (λ id. calm) 100 unpublished).1.store
sweep-Kept_example = sweep-Kept publish calm (λ id. calm) 100 unpublished ended_store-IsValid

sweep-AllMarked_example :
    Published publish
      (list_unprojected_score_events 100 ended_store)
      0
      (sweep publish calm (λ id. calm) 100 unpublished).1.boards
    × AllMarked publish
        (list_unprojected_score_events 100 ended_store)
        (sweep publish calm (λ id. calm) 100 unpublished).1.store.events
    × ((sweep publish calm (λ id. calm) 100 unpublished).0.0
        ≡ length (list_unprojected_score_events 100 ended_store))
unfolding sweep podium.Projector.sweep_events list_unprojected_score_events podium.Projector.pending
    podium.Projector.insert_event podium.Projector.publish
sweep-AllMarked_example = sweep-AllMarked publish calm (λ id. calm) 100 unpublished refl

finish_op_succeeds_example :
    (s : Session ℤ ℕ) × (w' : World ℤ ℕ) × (finish_op whole games (some publish) calm 7 1 opened
      ≡ (ok s, w'))
    × (s.score ≡ some (score_from event))
unfolding get new_registry engine_for engine_view podium.Games.Engine.decode engine_raw points_of
    podium.Games.Points.clamp
finish_op_succeeds_example =
    finish_op_succeeds whole games (some publish) calm 1 opened opened_row count_up (0 ∷ []) (pos 0)
      opened_store-IsValid (λ c. refl) refl refl refl refl refl refl
