-- ===== src/Session/Operations.antt =====
-- internal/session/session.go: the operations as a caller sees them. What a committed transaction
-- wrote stays, whatever fails after the commit. The leaderboards behind `Projector` are the
-- parameter `projector`, which changes boards of any type `B`; metrics and logs are left out.
use podium.Base.{ℕ, Bool, true, false, ◌&&◌, Option, none, some, Result, ok, err, if◌then◌else◌}
use podium.Base.Int.{ℤ}
use podium.Games.Common.{Bytes, Time}
use podium.Games.Float64.{Float64}
use podium.Games.Registry.{Slug, Registry}
use podium.Session.Store.{
  GameSession, ScoreEvent, Store, Failure, cancelled, begin, sleep, mark, Env, attempt,
  mark_score_event_projected, Call, Tx, commit,
}
use podium.Session.Service.{
  Score, Session, score_from, session_from, transact, Applied, apply_move, Ended, end_session,
  start, get_session,
}

-- The tables and the boards.
pub record World (F B : Type 0) : Type 0 where
  pub store : Store F
  pub boards : B

-- Submit on the boards: a placement, or `none` for an error, with the boards after it.
abbrev pub Submit : Type 0 → Type 0 → Type 0
Submit B P = ℕ → Slug → ℤ → Time → B → Option P × B

-- The same environment, with a commit that is done and answered.
abbrev pub but_commit : (Call → Bool) → Call → Bool
but_commit fails commit = false
but_commit fails call = fails call

abbrev pub answered : Env → Env
answered env = record env { fails = but_commit env.fails }

abbrev pub store_of : {F A : Type 0} → Store F → Result Failure (A × Store F) → Store F
store_of st (err e) = st
store_of st (ok (a, after)) = after

-- The tables that an operation leaves when it fails: those of before, unless a commit that failed is
-- done all the same.
unfoldable pub left_by : {F A : Type 0} → Env → (Env → Tx F A) → Store F → Store F
left_by env m st = if env.lost then store_of st (m (answered env) st) else st

module _ (f : Float64) (registry : Registry f.Float) {B P : Type 0}
    (projector : Option (Submit B P)) where
  open f use {Float}

  abbrev pub Reply : Type 0
  Reply = Result Failure (Session Float P) × World Float B

  abbrev pub projected : Env → ℕ → World Float B → Option P × B → Option P × World Float B
  projected env event w (none, boards) = (none, record w { boards = boards })
  projected env event w (some p, boards) = (
    some p,
    record {
      store = if env.fails mark then w.store else mark_score_event_projected env event w.store;
      boards = boards;
    },
  )

  abbrev pub submit_with :
      Option (Submit B P) → Env → ℕ → Score Float → World Float B → Option P × World Float B
  submit_with none env user score w = (none, w)
  submit_with (some submit) env user score w =
      projected env score.event_id w
        (submit user score.game score.points score.achieved_at w.boards)

  -- project: a failure is swallowed, and leaves the event for the projector loop.
  unfoldable pub project : Env → ℕ → Option (Score Float) → World Float B → Option P × World Float B
  project env user none w = (none, w)
  project env user (some score) w = submit_with projector env user score w

  abbrev pub answer :
      ℕ → GameSession → Bytes → Option (Score Float) → Option P × World Float B → Reply
  answer id row view score (placement, w) =
      (ok (record (session_from id row view score) { placement = placement }), w)

  abbrev pub started :
      Store Float → World Float B → Result Failure (Session Float P × Store Float) → Reply
  started left w (err e) = (err e, record w { store = left })
  started left w (ok (s, st)) = (ok s, record w { store = st })

  unfoldable pub start_op : Env → ℕ → Slug → World Float B → Reply
  start_op env user slug w =
      started (left_by env (λ e. start f registry {P = P} e user slug) w.store) w
        (start f registry env user slug w.store)

  unfoldable pub get_op : Env → ℕ → ℕ → World Float B → Reply
  get_op env user id w = started w.store w (get_session f registry env user id w.store)

  abbrev pub is_held : Option Time → Bool
  is_held none = false
  is_held (some t) = true

  abbrev pub score_of : Option (ScoreEvent Float) → Option (Score Float)
  score_of none = none
  score_of (some e) = some (score_from e)

  -- After the commit: hold the response back, then publish the score.
  unfoldable pub respond : Env → ℕ → Applied f registry → World Float B → Reply
  respond env id (row, view, hold, event) w =
      if is_held hold && env.fails sleep
      then (err cancelled, w)
      else answer id row view (score_of event) (project env row.user_id (score_of event) w)

  abbrev pub moved :
      Store Float
      → Env
      → ℕ
      → World Float B
      → Result Failure (Applied f registry × Store Float)
      → Reply
  moved left env id w (err e) = (err e, record w { store = left })
  moved left env id w (ok (a, st)) = respond env id a (record w { store = st })

  unfoldable pub move_op : Env → ℕ → ℕ → Bytes → World Float B → Reply
  move_op env user id raw w =
      moved (left_by env (λ e. transact e (apply_move f registry e user id raw)) w.store) env id w
        (transact env (apply_move f registry env user id raw) w.store)

  -- Only a score settled by this call is published.
  abbrev pub finished_reply :
      Store Float
      → Env
      → ℕ
      → World Float B
      → Result Failure (Ended f registry × Store Float)
      → Reply
  finished_reply left env id w (err e) = (err e, record w { store = left })
  finished_reply left env id w (ok ((row, view, score, false), st)) =
      (ok (session_from id row view (some score)), record w { store = st })
  finished_reply left env id w (ok ((row, view, score, true), st)) =
      answer id row view (some score)
        (project env row.user_id (some score) (record w { store = st }))

  unfoldable pub finish_op : Env → ℕ → ℕ → World Float B → Reply
  finish_op env user id w =
      finished_reply (left_by env (λ e. attempt e begin (end_session f registry e user id)) w.store)
        env id w (attempt env begin (end_session f registry env user id) w.store)
