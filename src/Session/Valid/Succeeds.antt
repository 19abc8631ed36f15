-- ===== src/Session/Valid/Succeeds.antt =====
-- internal/session/session.go: a `Finish` of an active session with nothing in its way.
use podium.Base.{ℕ, ◌+◌, ◌≡◌, refl, true, false, ◌==◌, Option, none, some, ◌∷◌, ok, arith, subst}
use podium.Games.Common.{Bytes}
use podium.Games.Float64.{Float64}
use podium.Games.Registry.{Definition, Registry, get, points_of}
use podium.Session.Store.{
  is_active, finished, GameSession, ScoreEvent, Store, Call, begin, lock, finish, insert_score,
  commit, Env, in_check, update, new_event, event_of, get_game_session, finish_game_session,
  create_score_event,
}
use podium.Session.Service.{Session, Score, score_from, session_from, settle, end_row, end_session}
use podium.Session.Operations.{World, Submit, finish_op, finished_reply, project}
use podium.Session.Valid.{Agrees, IsValid}
use podium.Session.Valid.Keeps.{no_event}

module _ (f : Float64) (registry : Registry f.Float) where
  -- The row once finished, and the tables with its event.
  abbrev ended : Env → GameSession → GameSession
  ended env row = record row { status = finished; finished_at = some env.db_now }

  abbrev pub event :
      Env → ℕ → GameSession → Definition f.Float → f.Float → Store f.Float → ScoreEvent f.Float
  event env id row d raw st =
      new_event env st.next_event row.user_id id row.game raw (points_of f d raw)

  settle_succeeds :
      (env : Env) (id : ℕ) (row : GameSession) (d : Definition f.Float) (raw : f.Float)
      (st : Store f.Float)
      → env.fails finish ≡ false
      → env.fails insert_score ≡ false
      → st.sessions id ≡ some row
      → is_active row.status ≡ true
      → event_of id st.events ≡ none
      → d.engine.raw row.state ≡ ok raw
      → in_check (points_of f d raw) ≡ true
      → settle f registry env id row d st
        ≡ ok (
          (ended env row, event env id row d raw st),
          record st {
            sessions = update st.sessions id (ended env row);
            events = event env id row d raw st ∷ st.events;
            next_event = st.next_event + 1;
          },
        )
  unfolding settle finish_game_session create_score_event
  settle_succeeds env id row d raw st a b there open_ free is fits =
      rw is (rw a (rw there (rw open_ (rw b (rw free (rw fits refl))))))

module _ (f : Float64) (registry : Registry f.Float) {B P : Type 0}
    (projector : Option (Submit B P)) where
  fresh_answer :
      (left : Store f.Float) (env : Env) (id : ℕ) (w : World f.Float B) (row : GameSession)
      (view : Bytes) (score : Score f.Float) (st : Store f.Float)
      → (s : Session f.Float P) × (w' : World f.Float B) × (finished_reply f registry projector left
            env id w
            (ok ((row, view, score, true), st))
          ≡ (ok s, w'))
        × (s.score ≡ some score)
  unfolding session_from
  fresh_answer left env id w row view score st =
      let r = project f registry projector env row.user_id (some score) (record w { store = st }) in
      (record (session_from id row view (some score)) { placement = r.0 }, r.1, refl, refl)

  -- On valid tables, a `Finish` of the user's own active session succeeds when no call fails, the
  -- registry has the game, the stored state decodes, and its points lie in the range of the check;
  -- it answers the points of the engine's metric.
  pub finish_op_succeeds :
      (env : Env) (id : ℕ) (w : World f.Float B) (row : GameSession) (d : Definition f.Float)
      (view : Bytes) (raw : f.Float)
      → IsValid w.store
      → ((c : Call) → env.fails c ≡ false)
      → w.store.sessions id ≡ some row
      → is_active row.status ≡ true
      → get registry row.game ≡ ok d
      → d.engine.view row.state ≡ ok view
      → d.engine.raw row.state ≡ ok raw
      → in_check (points_of f d raw) ≡ true
      → (s : Session f.Float P) × (w' : World f.Float B) × (finish_op f registry projector env
            row.user_id id w
          ≡ (ok s, w'))
        × (s.score ≡ some (score_from (event f registry env id row d raw w.store)))
  unfolding finish_op end_session end_row get_game_session
  finish_op_succeeds env id w row d view raw v calm there open_ known shown is fits =
      let free =
        no_event row (event_of id w.store.events) open_
          (subst (λ o. Agrees o (event_of id w.store.events)) there (v.agrees id)) in
      let settled =
        settle_succeeds f registry env id row d raw w.store (calm finish) (calm insert_score) there
          open_ free is fits in
      let own : (row.user_id == row.user_id) ≡ true = ground arith in
      rw (calm begin) (
        rw (calm lock) (
          rw there (
            rw own (
              rw known (
                rw shown (
                  rw open_
                    (rw settled (rw (calm commit) (fresh_answer w.store env id w _ view _ _)))))))))
