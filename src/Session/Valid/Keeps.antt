-- ===== src/Session/Valid/Keeps.antt =====
-- internal/session/session.go: the transactions of `Start`, `Move` and `Finish` keep the tables
-- valid, and what they did when they succeed.
use podium.Base.{
  ℕ, ◌≡◌, refl, sym, ap, ◌∙◌, ◌⊎◌, inl, inr, Bool, true, false, Option, none, some, ok, subst,
}
use podium.Games.Common.{Bytes}
use podium.Games.Common as Games
use podium.Games.Rng.{new_seed}
use podium.Games.Float64.{Float64}
use podium.Games.Registry.{Slug, Definition, Registry, get, points_of}
use podium.Session.Store.{
  finished, is_active, GameSession, ScoreEvent, Store, draw_seed, load, lock, save, commit,
  load_score, Env, ◌>>=◌, pure, lift_game, attempt, get_game_session, save_game_session_state,
  event_of, active, fresh_row,
}
use podium.Session.Service.{
  Session, Score, score_from, session_from, transact, owned, open_, settle, start, get_session,
  Applied, Ended, apply_move, settle_if_done, score_for, present, recorded, end_row, end_session,
}
use podium.Session.Valid.{Agrees, IsValid}
use podium.Session.Valid.Queries.{save_game_session_state-IsValid, update_self, finished_closed}
use podium.Session.Valid.Settle.{Settled, settle-Settled}
use podium.Session.Valid.Requests.{opened, other_open}
use podium.Session.Valid.Marks.{as_score, score_in}
use podium.Session.Valid.Steps.{
  Keeps, after, keep_pure, keep_attempt, keep_transact, keep_game, keep_get, keep_owned, keep_open,
  weaken, given, keep_if,
}

-- A session that is open has no event.
pub no_event :
    {F : Type 0} (row : GameSession) (e : Option (ScoreEvent F))
    → is_active row.status ≡ true
    → Agrees (some row) e
    → e ≡ none
no_event row none h a = refl
no_event row (some e) h a = absurd (finished_closed row.status h a.0)

module _ (f : Float64) (registry : Registry f.Float) where
  open f use {Float}

  abbrev pub Started : {P : Type 0} → Env → ℕ → Slug → Session Float P → Store Float → Type 0
  Started env user slug s st =
      IsValid st
      × ((row : GameSession) × (st.sessions env.new_id ≡ some row)
          × (row.status ≡ active)
          × (row.user_id ≡ user)
          × (row.game ≡ slug)
          × (row.moves ≡ 0)
          × (s ≡ session_from env.new_id row s.view none))
      × ((i : ℕ) → other_open env user slug st i ≡ false)

  pub start_keeps :
      {P : Type 0} (env : Env) (user : ℕ) (slug : Slug)
      → Keeps IsValid (start f registry {P = P} env user slug) (Started env user slug)
  unfolding start session_from
  start_keeps env user slug =
      after (lift_game (get registry slug)) _ (keep_game (get registry slug)) (λ d.
        after (attempt env draw_seed (pure (new_seed env.random))) _
          (keep_attempt env draw_seed _ (keep_pure _ (λ st v. v.0)))
          (λ seed.
            after {R = λ a st. IsValid st} (lift_game (d.engine.start seed env.now)) _
              (weaken _ (λ st v. v) (λ a st v. v.0) (keep_game (d.engine.start seed env.now)))
              (λ e.
                after
                  {R = λ row st.
                    IsValid st
                    × (st.sessions env.new_id ≡ some row)
                    × (row ≡ fresh_row env user slug seed e.0 e.2)
                    × ((i : ℕ) → other_open env user slug st i ≡ false)}
                  (transact env _) _
                  (keep_transact env _ (record {
                    run = λ st st' row v h. opened env user slug seed e.0 e.2 st st' row v h;
                  }))
                  (λ row. keep_pure _ (λ st v. (
                    v.0,
                    (
                      row,
                      v.1,
                      ap (λ t. t.status) v.2,
                      ap (λ t. t.user_id) v.2,
                      ap (λ t. t.game) v.2,
                      ap (λ t. t.moves) v.2,
                      refl,
                    ),
                    v.3,
                  ))))))

  -- The tables are valid, the session is the row `row`, and its event is `e`.
  abbrev pub Holds : ℕ → GameSession → Option (ScoreEvent Float) → Store Float → Type 0
  Holds id row e st = IsValid st × (st.sessions id ≡ some row) × (event_of id st.events ≡ e)

  settle_keeps :
      (env : Env) (id : ℕ) (row : GameSession) (d : Definition Float)
      → Keeps
          (λ st. IsValid st × (st.sessions id ≡ some row))
          (settle f registry env id row d)
          (λ r st. (old : Store Float) × Settled f registry old id row d r.0 r.1 st)
  settle_keeps env id row d = record {
    run = λ st st' r v h. (st, settle-Settled f registry env id row d st st' r.0 r.1 v.0 v.1 h);
  }

  -- What a move did to the session: one that ends the game finishes it and records the metric of the
  -- new state with its points, and any other leaves it open without a score.
  abbrev pub Aftermath : Definition Float → Bool → GameSession → Option (ScoreEvent Float) → Type 0
  Aftermath d true row none = ⊥
  Aftermath d true row (some e) =
      (row.status ≡ finished)
      × (d.engine.raw row.state ≡ ok e.raw)
      × (e.points ≡ points_of f d e.raw)
  Aftermath d false row (some e) = ⊥
  Aftermath d false row none = is_active row.status ≡ true

  settle_if_done_keeps :
      (env : Env) (id user : ℕ) (row : GameSession) (d : Definition Float) (done : Bool)
      → row.user_id ≡ user
      → is_active row.status ≡ true
      → Keeps
          (λ st. IsValid st × (st.sessions id ≡ some row))
          (settle_if_done f registry env id row d done)
          (λ r st.
            Holds id r.0 r.1 st
            × (r.0.user_id ≡ user)
            × (r.0.state ≡ row.state)
            × Aftermath d done r.0 r.1)
  unfolding settle_if_done
  settle_if_done_keeps env id user row d true whose open_ =
      after (settle f registry env id row d) _ (settle_keeps env id row d) (λ r.
        keep_pure _ (λ st (old, s).
          ((s.0, s.1, s.3), s.6 ∙ whose, s.8, (s.2, ap d.engine.raw s.8 ∙ s.4, s.5))))
  settle_if_done_keeps env id user row d false whose open_ = keep_pure _ (λ st v. (
    (
      v.0,
      v.1,
      no_event row (event_of id st.events) open_
          (subst (λ o. Agrees o (event_of id st.events)) v.1 (v.0.agrees id)),
    ),
    whose,
    refl,
    open_,
  ))

  save_keeps :
      (id user : ℕ) (state : Bytes) (row : GameSession)
      → row.user_id ≡ user
      → is_active row.status ≡ true
      → Keeps {F = Float}
          (λ st. IsValid st × (st.sessions id ≡ some row))
          (save_game_session_state id state)
          (λ r st.
            (IsValid st × (st.sessions id ≡ some r))
            × (r.user_id ≡ user)
            × (is_active r.status ≡ true)
            × (r.state ≡ state))
  save_keeps id user state row whose open_ = record {
    run = λ st st' r v h.
        let (valid, was, there, now, next) =
          save_game_session_state-IsValid id state st st' r v.0 h in
        let same : was ≡ row = cc in
        (
          (valid, ap (λ (t : Store Float). t.sessions id) next ∙ update_self st.sessions id r),
          ap (λ t. t.user_id) now ∙ ap (λ t. t.user_id) same ∙ whose,
          ap (λ t. is_active t.status) now ∙ ap (λ t. is_active t.status) same ∙ open_,
          ap (λ t. t.state) now,
        );
  }

  -- What the engine makes of a move on a row: the state that is stored, the view and the hold that
  -- are answered, and the end of the game.
  abbrev pub Played : Env → Bytes → GameSession → Applied f registry → Type 0
  Played env raw was a =
      (d : Definition Float) × (m : Bytes × Bytes × Games.Outcome) × (get registry was.game ≡ ok d)
      × (d.engine.move was.state raw env.now ≡ ok m)
      × (a.0.state ≡ m.0)
      × (a.1 ≡ m.1)
      × (a.2 ≡ m.2.hold_until)
      × Aftermath d m.2.done a.0 a.3

  -- What `Move` answers is the row and the event of the session, after the engine's move on the row
  -- of before, which was its user's and open.
  abbrev pub Moved : Env → ℕ → ℕ → Bytes → Store Float → Applied f registry → Store Float → Type 0
  Moved env user id raw before a st =
      Holds id a.0 a.3 st
      × (a.0.user_id ≡ user)
      × ((was : GameSession) × (before.sessions id ≡ some was)
          × (was.user_id ≡ user)
          × (is_active was.status ≡ true)
          × Played env raw was a)

  pub apply_move_keeps :
      (env : Env) (user id : ℕ) (raw : Bytes) (before : Store Float)
      → IsValid before
      → Keeps
          (λ st. st ≡ before)
          (apply_move f registry env user id raw)
          (Moved env user id raw before)
  unfolding apply_move
  apply_move_keeps env user id raw before valid =
      after (attempt env lock (get_game_session id)) _ (keep_attempt env lock _ (keep_get id))
        (λ row. after (owned user row) _ (keep_owned user row) (λ _.
          after (open_ row) _ (keep_open row) (λ _.
            after (lift_game (get registry row.game)) _ (keep_game (get registry row.game)) (λ d.
              after (lift_game (d.engine.move row.state raw env.now)) _
                (keep_game (d.engine.move row.state raw env.now))
                (λ m.
                  given
                    {φ = (row.user_id ≡ user)
                      × (is_active row.status ≡ true)
                      × (before.sessions id ≡ some row)
                      × (get registry row.game ≡ ok d)
                      × (d.engine.move row.state raw env.now ≡ ok m)}
                    _
                    (λ st p. (
                      p.0.0.0.1,
                      p.0.0.1,
                      ap (λ (t : Store Float). t.sessions id) (sym p.0.0.0.0.0) ∙ p.0.0.0.0.1,
                      p.0.1,
                      p.1,
                    ))
                    (λ facts.
                      after (attempt env save (save_game_session_state id m.0)) _
                        (keep_attempt env save _ (
                          weaken _ (λ st p. (subst IsValid (sym p.0.0.0.0.0) valid, p.0.0.0.0.1))
                            (λ a st q. q) (save_keeps id user m.0 row facts.0 facts.1)))
                        (λ updated.
                          given
                            {φ = (updated.user_id ≡ user)
                              × (is_active updated.status ≡ true)
                              × (updated.state ≡ m.0)}
                            _ (λ st p. (p.1, p.2, p.3))
                            (λ now.
                              after (settle_if_done f registry env id updated d m.2.done) _
                                (weaken _ (λ st p. p.0) (λ a st q. q)
                                  (settle_if_done_keeps env id user updated d m.2.done now.0 now.1))
                                (λ r. keep_pure _ (λ st v. (
                                  v.0,
                                  v.1,
                                  (
                                    row,
                                    facts.2,
                                    facts.0,
                                    facts.1,
                                    (d, m, facts.3, facts.4, v.2 ∙ now.2, refl, refl, v.3),
                                  ),
                                )))))))))))

  -- What `Finish` answers: the session is finished, and the score is the one of its event, which is
  -- either as it was, with all the tables of `before`, or new.
  abbrev pub Finished : ℕ → ℕ → Store Float → Ended f registry → Store Float → Type 0
  Finished user id before (row, view, score, fresh) st =
      (IsValid st × (st.sessions id ≡ some row) × (row.status ≡ finished) × (row.user_id ≡ user))
      × ((e : ScoreEvent Float) × (event_of id st.events ≡ some e) × (score ≡ score_from e))
      × (((fresh ≡ false) × (st ≡ before)) ⊎ ((fresh ≡ true) × (event_of id before.events ≡ none)))

  settle_end_keeps :
      (env : Env) (user id : ℕ) (row : GameSession) (d : Definition Float) (view : Bytes)
      (before : Store Float)
      → row.user_id ≡ user
      → event_of id before.events ≡ none
      → Keeps
          (λ st. IsValid st × (st.sessions id ≡ some row))
          (settle f registry env id row d >>= λ r.
            attempt env commit (pure (r.0, view, score_from r.1, true)))
          (Finished user id before)
  settle_end_keeps env user id row d view before whose free =
      after (settle f registry env id row d) _ (settle_keeps env id row d) (λ r.
        keep_attempt env commit _ (
          keep_pure _
            (λ st (old, s). ((s.0, s.1, s.2, s.6 ∙ whose), (r.1, s.3, refl), inr (refl, free)))))

  -- The score of a session that has ended, and the tables that were read.
  abbrev pub Read : ℕ → GameSession → Store Float → Option (Score Float) → Store Float → Type 0
  Read id row before none st =
      (st ≡ before) × ((is_active row.status ≡ true) ⊎ (event_of id before.events ≡ none))
  Read id row before (some score) st =
      (st ≡ before)
      × (e : ScoreEvent Float) × (event_of id before.events ≡ some e)
      × (score ≡ score_from e)

  present_keeps :
      (row : GameSession) (id : ℕ) (o : Option (ScoreEvent Float)) (before : Store Float)
      → event_of id before.events ≡ o
      → Keeps (λ st. st ≡ before) (present f registry row o) (Read id row before)
  present_keeps row id none before there = keep_pure _ (λ st same. (same, inr there))
  present_keeps row id (some e) before there =
      after (lift_game (get registry row.game)) _ (keep_game (get registry row.game))
        (λ d. keep_pure _ (λ st p. (p.0, e, there, refl)))

  score_for_keeps :
      (env : Env) (id : ℕ) (row : GameSession) (before : Store Float)
      → Keeps (λ st. st ≡ before) (score_for f registry env id row) (Read id row before)
  unfolding score_for
  score_for_keeps env id row before =
      keep_if (is_active row.status) _ _ (λ open_. keep_pure _ (λ st same. (same, inl open_)))
        (λ over. keep_attempt env load_score _ (record {
          run = λ st st' s same h.
              (present_keeps row id (event_of id st.events) before
                  (ap (λ (t : Store Float). event_of id t.events) (sym same))).run
                st st' s same h;
        }))

  -- What `Get` answers: the score in the tables, to the owner, and it writes nothing.
  abbrev pub Shown : {P : Type 0} → ℕ → ℕ → Store Float → Session Float P → Store Float → Type 0
  Shown user id before s st =
      (st ≡ before)
      × (s.score ≡ score_in id before)
      × ((row : GameSession) × (before.sessions id ≡ some row)
          × (row.user_id ≡ user)
          × (s.status ≡ row.status))

  Read-score_in :
      (id : ℕ) (row : GameSession) (before st : Store Float) (s : Option (Score Float))
      → IsValid before
      → before.sessions id ≡ some row
      → Read id row before s st
      → s ≡ score_in id before
  Read-score_in id row before st none valid there (same, inl open_) = sym (
      ap as_score (
        no_event row (event_of id before.events) open_
          (subst (λ o. Agrees o (event_of id before.events)) there (valid.agrees id))))
  Read-score_in id row before st none valid there (same, inr free) = sym (ap as_score free)
  Read-score_in id row before st (some score) valid there (same, e, event, is) =
      ap some is ∙ sym (ap as_score event)

  Read-same :
      (id : ℕ) (row : GameSession) (before st : Store Float) (s : Option (Score Float))
      → Read id row before s st
      → st ≡ before
  Read-same id row before st none r = r.0
  Read-same id row before st (some score) r = r.0

  pub get_session_keeps :
      {P : Type 0} (env : Env) (user id : ℕ) (before : Store Float)
      → IsValid before
      → Keeps
          (λ st. st ≡ before)
          (get_session f registry {P = P} env user id)
          (Shown user id before)
  unfolding get_session session_from
  get_session_keeps env user id before valid =
      after (attempt env load (get_game_session id)) _ (keep_attempt env load _ (keep_get id))
        (λ row. after (owned user row) _ (keep_owned user row) (λ _.
          after (lift_game (get registry row.game)) _ (keep_game (get registry row.game)) (λ d.
            after (lift_game (d.engine.view row.state)) _ (keep_game (d.engine.view row.state))
              (λ view.
                given {φ = (row.user_id ≡ user) × (before.sessions id ≡ some row)} _
                  (λ st p.
                    (p.0.0.1, ap (λ (t : Store Float). t.sessions id) (sym p.0.0.0.0) ∙ p.0.0.0.1))
                  (λ facts.
                    weaken _ (λ st p. p.0.0.0.0) (λ a st q. q)
                      (after (score_for f registry env id row) _ (score_for_keeps env id row before)
                        (λ s. keep_pure _ (λ st r. (
                          Read-same id row before st s r,
                          Read-score_in id row before st s valid facts.1 r,
                          (row, facts.1, facts.0, refl),
                        )))))))))

  recorded_keeps :
      (user id : ℕ) (row : GameSession) (view : Bytes) (before : Store Float)
      (s : Option (Score Float))
      → IsValid before
      → before.sessions id ≡ some row
      → row.user_id ≡ user
      → Keeps (Read id row before s) (recorded f registry row view s) (Finished user id before)
  recorded_keeps user id row view before none valid there whose = record {
    run = λ st st' a p h. cc;
  }
  recorded_keeps user id row view before (some score) valid there whose =
      keep_pure _ (λ st (same, e, event, is).
        let agrees : Agrees (some row) (some e) =
          subst (λ o. Agrees o (some e)) there
            (subst (λ o. Agrees (before.sessions id) o) event (valid.agrees id)) in
        (
          (
            subst IsValid (sym same) valid,
            ap (λ (t : Store Float). t.sessions id) same ∙ there,
            agrees.0,
            whose,
          ),
          (e, ap (λ (t : Store Float). event_of id t.events) same ∙ event, is),
          inl (refl, same),
        ))

  pub end_session_keeps :
      (env : Env) (user id : ℕ) (before : Store Float)
      → IsValid before
      → Keeps (λ st. st ≡ before) (end_session f registry env user id) (Finished user id before)
  unfolding end_session end_row
  end_session_keeps env user id before valid =
      after (attempt env lock (get_game_session id)) _ (keep_attempt env lock _ (keep_get id))
        (λ row. after (owned user row) _ (keep_owned user row) (λ _.
          after (lift_game (get registry row.game)) _ (keep_game (get registry row.game)) (λ d.
            after (lift_game (d.engine.view row.state)) _ (keep_game (d.engine.view row.state))
              (λ view.
                given {φ = (row.user_id ≡ user) × (before.sessions id ≡ some row)} _
                  (λ st p.
                    (p.0.0.1, ap (λ (t : Store Float). t.sessions id) (sym p.0.0.0.0) ∙ p.0.0.0.1))
                  (λ facts.
                    keep_if (is_active row.status) _ _
                      (λ open_.
                        weaken _ (λ st p. (subst IsValid (sym p.0.0.0.0) valid, p.0.0.0.1))
                          (λ a st q. q)
                          (settle_end_keeps env user id row d view before facts.0 (
                            no_event row (event_of id before.events) open_ (
                              subst (λ o. Agrees o (event_of id before.events)) facts.1
                                (valid.agrees id)))))
                      (λ over.
                        weaken _ (λ st p. p.0.0.0.0) (λ a st q. q)
                          (after (score_for f registry env id row) _
                            (score_for_keeps env id row before)
                            (λ s.
                              recorded_keeps user id row view before s valid facts.1 facts.0))))))))

  -- A `Start` that succeeds on valid tables leaves them valid, and answers the row that it stored at
  -- the new id, without a score: an active session of the user and the game, without moves. No other
  -- session that its update saw is open for the user and the game.
  pub start-Started :
      {P : Type 0} (env : Env) (user : ℕ) (slug : Slug) (st st' : Store Float) (s : Session Float P)
      → IsValid st
      → start f registry env user slug st ≡ ok (s, st')
      → Started env user slug s st'
  start-Started env user slug st st' s v h = (start_keeps env user slug).run st st' s v h

  -- The transaction of a `Move` that succeeds on valid tables met an open session of the user, and
  -- leaves valid tables. It answers the row and the event that they then hold for the session, and the
  -- engine's view and hold for the move on the old state; the row has the engine's new state. A move
  -- that ends the game has finished the session and recorded the metric of that state with its
  -- points; any other leaves it open, without an event.
  pub apply_move-Moved :
      (env : Env) (user id : ℕ) (raw : Bytes) (st st' : Store Float) (a : Applied f registry)
      → IsValid st
      → apply_move f registry env user id raw st ≡ ok (a, st')
      → Moved env user id raw st a st'
  apply_move-Moved env user id raw st st' a v h =
      (apply_move_keeps env user id raw st v).run st st' a refl h
