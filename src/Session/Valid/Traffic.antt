-- ===== src/Session/Valid/Traffic.antt =====
-- internal/session/session.go: any sequence of requests.
use podium.Base.{ℕ, ◌≡◌, refl, sym, Option, List, [], ◌∷◌, Result, ok, err, subst}
use podium.Games.Common.{Bytes}
use podium.Games.Float64.{Float64}
use podium.Games.Registry.{Slug, Registry}
use podium.Session.Store.{Store, Env, Failure}
use podium.Session.Service.{Session, get_session}
use podium.Session.Operations.{World, Submit, Reply, started, start_op, get_op, move_op, finish_op}
use podium.Session.Valid.{IsValid}
use podium.Session.Valid.Keeps.{get_session_keeps}
use podium.Session.Valid.Served.{start_op-IsValid, move_op-IsValid, finish_op-IsValid}

-- What a caller may ask for.
pub data Request : Type 0 where
  open_game : Slug → Request
  look : ℕ → Request
  play_move : ℕ → Bytes → Request
  finish_game : ℕ → Request

module _ (f : Float64) (registry : Registry f.Float) {B P : Type 0}
    (projector : Option (Submit B P)) where
  open f use {Float}

  unfoldable pub serve : Env → ℕ → Request → World Float B → Reply f registry projector
  serve env user (open_game slug) w = start_op f registry projector env user slug w
  serve env user (look id) w = get_op f registry projector env user id w
  serve env user (play_move id raw) w = move_op f registry projector env user id raw w
  serve env user (finish_game id) w = finish_op f registry projector env user id w

  -- The state after a sequence of requests, each with its own faults and clock.
  unfoldable pub served : List (Env × ℕ × Request) → World Float B → World Float B
  served [] w = w
  served ((env, user, request) ∷ rest) w = served rest (serve env user request w).1

  started_get-IsValid :
      (env : Env) (user id : ℕ) (w : World Float B)
      (r : Result Failure (Session Float P × Store Float))
      → IsValid w.store
      → ((s : Session Float P) (st : Store Float) → r ≡ ok (s, st) → st ≡ w.store)
      → IsValid (started f registry projector w.store w r).1.store
  started_get-IsValid env user id w (err e) v k = v
  started_get-IsValid env user id w (ok (s, st)) v k = subst IsValid (sym (k s st refl)) v

  serve-IsValid :
      (env : Env) (user : ℕ) (request : Request) (w : World Float B)
      → IsValid w.store
      → IsValid (serve env user request w).1.store
  unfolding serve get_op
  serve-IsValid env user (open_game slug) w v =
      start_op-IsValid f registry projector env user slug w v
  serve-IsValid env user (look id) w v =
      started_get-IsValid env user id w (get_session f registry env user id w.store) v
        (λ s st e. ((get_session_keeps f registry env user id w.store v).run w.store st s refl e).0)
  serve-IsValid env user (play_move id raw) w v =
      move_op-IsValid f registry projector env user id raw w v
  serve-IsValid env user (finish_game id) w v =
      finish_op-IsValid f registry projector env user id w v

  -- Valid tables, with one event, of points on the scale, for each finished session, for its user and
  -- its game, and none for any other, stay valid over every sequence of requests of any users, whatever calls fail, a
  -- commit that is done and not answered among them, and whichever sessions the update of a Start
  -- sees.
  pub served-IsValid :
      (requests : List (Env × ℕ × Request)) (w : World Float B)
      → IsValid w.store
      → IsValid (served requests w).store
  unfolding served
  served-IsValid [] w v = v
  served-IsValid ((env, user, request) ∷ rest) w v =
      served-IsValid rest (serve env user request w).1 (serve-IsValid env user request w v)
