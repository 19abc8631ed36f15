-- ===== src/Session/Valid/Settle.antt =====
-- Settling a session, its two queries together: the session is finished and its one score event
-- recorded. Between the two the tables are not valid, so there is one lemma for both.
use podium.Base.{
  ℕ, ◌+◌, ◌≡◌, refl, sym, ap, ◌∙◌, inl, inr, true, false, Option, none, some, List, [], ◌∷◌, Result,
  ok, arith, ◌==◌, Bool-cases,
}
use podium.Base.Int.{ℤ, pos, ◌≤ℤ◌}
use podium.Games.Common.{Time}
use podium.Games.Float64.{Float64}
use podium.Games.Registry.{Definition, Registry, points_of}
use podium.Session.Store.{
  finished, is_active, GameSession, ScoreEvent, Store, Failure, finish, insert_score, Env,
  lift_game, attempt, update, finished_row, finish_game_session, event_of, in_check, scored,
  create_score_event, new_event,
}
use podium.Session.Service.{settle}
use podium.Session.Valid.{Agrees, AllIssued, IsValid}
use podium.Session.Valid.Queries.{>>=-ok, attempt-ok, lift_game-ok, update_self}

AllIssued-more :
    {F : Type 0} (n : ℕ) (es : List (ScoreEvent F)) → AllIssued n es → AllIssued (n + 1) es
AllIssued-more n [] h = tt
AllIssued-more n (e ∷ es) h = (omega (arith, h.0), h.1, h.2, AllIssued-more n es h.3)

in_check_range : (p : ℤ) → in_check p ≡ true → (pos 0 ≤ℤ p) × (p ≤ℤ pos 10000)
in_check_range p h = ground arith

module _ {F : Type 0} where
  finished_row-ok :
      (id : ℕ) (at : Time) (o : Option GameSession) (st st' : Store F) {r : GameSession}
      → finished_row id at o st ≡ ok (r, st')
      → (row : GameSession) × (o ≡ some row)
        × (is_active row.status ≡ true)
        × (r ≡ record row { status = finished; finished_at = some at })
        × (st' ≡ record st { sessions = update st.sessions id r })
  finished_row-ok id at none st st' e = cc
  finished_row-ok id at (some row) st st' e = (row, refl, ground arith, ground arith, ground arith)

  scored-ok :
      (e : ScoreEvent F) (o : Option (ScoreEvent F)) (st st' : Store F) {r : ScoreEvent F}
      → scored e o st ≡ ok (r, st')
      → (o ≡ none)
        × (r ≡ e)
        × (in_check e.points ≡ true)
        × (st' ≡ record st { events = e ∷ st.events; next_event = st.next_event + 1 })
  scored-ok e none st st' h = (refl, ground arith, ground arith, ground arith)
  scored-ok e (some other) st st' h = cc

  -- The tables once a session that was active is finished, with its event in front.
  abbrev pub settled : ℕ → GameSession → ScoreEvent F → Store F → Store F
  settled id row e st = record st {
    sessions = update st.sessions id row;
    events = e ∷ st.events;
    next_event = st.next_event + 1;
  }

  settled-Agrees :
      (st : Store F) (id : ℕ) (row : GameSession) (e : ScoreEvent F) (i : ℕ)
      → row.status ≡ finished
      → e.session_id ≡ id
      → e.user_id ≡ row.user_id
      → e.game ≡ row.game
      → Agrees (st.sessions i) (event_of i st.events)
      → Agrees (update st.sessions id row i) (event_of i (e ∷ st.events))
  unfolding event_of
  settled-Agrees st id row e i over of user game h = elim (Bool-cases (i == id)) [
    | inl same ↦
        let hit : (e.session_id == i) ≡ true = ground arith in rw (same, hit) (over, user, game)
    | inr other ↦ let miss : (e.session_id == i) ≡ false = ground arith in rw (other, miss) h
  ]

  settled-IsValid :
      (st : Store F) (id : ℕ) (was row : GameSession) (e : ScoreEvent F)
      → IsValid st
      → st.sessions id ≡ some was
      → row.status ≡ finished
      → e.session_id ≡ id
      → e.user_id ≡ row.user_id
      → e.game ≡ row.game
      → e.id ≡ st.next_event
      → in_check e.points ≡ true
      → event_of id st.events ≡ none
      → IsValid (settled id row e st)
  settled-IsValid st id was row e v before over of user game issued points free = record {
    agrees = λ i. settled-Agrees st id row e i over of user game (v.agrees i);
    one_event = (ap (λ j. event_of j st.events) of ∙ free, v.one_event);
    issued = (
      omega (arith, issued),
      (in_check_range e.points points).0,
      (in_check_range e.points points).1,
      AllIssued-more st.next_event st.events v.issued,
    );
  }

  first_event :
      (id : ℕ) (e : ScoreEvent F) (es : List (ScoreEvent F))
      → e.session_id ≡ id
      → event_of id (e ∷ es) ≡ some e
  unfolding event_of
  first_event id e es h = ground arith

  -- What recording a finish does to an active session, in its two queries.
  finish_and_score :
      (env : Env) (id : ℕ) (was : GameSession) (raw : F) (points : ℤ) (st mid st' : Store F)
      (done : GameSession) (e : ScoreEvent F)
      → IsValid st
      → st.sessions id ≡ some was
      → finish_game_session env id st ≡ ok (done, mid)
      → create_score_event env was.user_id id was.game raw points mid ≡ ok (e, st')
      → IsValid st'
        × (st'.sessions id ≡ some done)
        × (done ≡ record was { status = finished; finished_at = some env.db_now })
        × (event_of id st'.events ≡ some e)
        × (e.raw ≡ raw)
        × (e.points ≡ points)
        × (is_active was.status ≡ true)
        × (st'.events ≡ e ∷ st.events)
        × (event_of id st.events ≡ none)
  unfolding finish_game_session create_score_event
  finish_and_score env id was raw points st mid st' done e v before ended recorded =
      let event = new_event env mid.next_event was.user_id id was.game raw points in
      let (row, there, open_, done_is, mid_is) =
        finished_row-ok id env.db_now (st.sessions id) st mid ended in
      let (free, e_is, range, st'_is) = scored-ok event (event_of id mid.events) mid st' recorded in
      let same : row ≡ was = cc in
      let done_is' : done ≡ record was { status = finished; finished_at = some env.db_now } =
        rw same at done_is in
      let none_before : event_of id st.events ≡ none =
        ap (λ (t : Store F). event_of id t.events) (sym mid_is) ∙ free in
      let after : st' ≡ settled id done e st = rw (← e_is, mid_is) at st'_is in
      (
        rw after (
            settled-IsValid st id was done e v before (ap (λ t. t.status) done_is')
              (ap (λ t. t.session_id) e_is)
              (ap (λ t. t.user_id) e_is ∙ sym (ap (λ t. t.user_id) done_is'))
              (ap (λ t. t.game) e_is ∙ sym (ap (λ t. t.game) done_is'))
              (ap (λ t. t.id) e_is ∙ ap (λ t. t.next_event) mid_is)
              (ap (λ t. in_check t.points) e_is ∙ range) none_before),
        rw after (update_self st.sessions id done),
        done_is',
        rw after (first_event id e st.events (ap (λ t. t.session_id) e_is)),
        ap (λ t. t.raw) e_is,
        ap (λ t. t.points) e_is,
        rw same at open_,
        ap (λ (t : Store F). t.events) after,
        none_before,
      )

pub ok-pair-injective :
    {A B S : Type 0} (a a' : A) (b b' : B) (s s' : S)
    → ◌≡◌ {A = Result Failure ((A × B) × S)} (ok ((a, b), s)) (ok ((a', b'), s'))
    → (a ≡ a') × (b ≡ b') × (s ≡ s')
ok-pair-injective a a' b b' s s' h = (cc, cc, cc)

module _ (f : Float64) (registry : Registry f.Float) where
  -- What `settle` did when it succeeded: the tables are valid again, the session is finished, and
  -- its event holds the engine's metric of its state and the points of that.
  abbrev pub Settled :
      Store f.Float
      → ℕ
      → GameSession
      → Definition f.Float
      → GameSession
      → ScoreEvent f.Float
      → Store f.Float
      → Type 0
  Settled st id row d done e st' =
      IsValid st'
      × (st'.sessions id ≡ some done)
      × (done.status ≡ finished)
      × (event_of id st'.events ≡ some e)
      × (d.engine.raw row.state ≡ ok e.raw)
      × (e.points ≡ points_of f d e.raw)
      × (done.user_id ≡ row.user_id)
      × (done.game ≡ row.game)
      × (done.state ≡ row.state)
      × (st'.events ≡ e ∷ st.events)
      × (event_of id st.events ≡ none)

  -- On valid tables that hold the session's row, settling it, if it succeeds, leaves valid tables in
  -- which the session is finished and otherwise as it was for its user, game and state: it had no
  -- event before, and now the events are those of before and one more, of the session, that holds the
  -- engine's metric of that state and the points of that metric. No session has two events.
  pub settle-Settled :
      (env : Env) (id : ℕ) (row : GameSession) (d : Definition f.Float) (st st' : Store f.Float)
      (done : GameSession) (e : ScoreEvent f.Float)
      → IsValid st
      → st.sessions id ≡ some row
      → settle f registry env id row d st ≡ ok ((done, e), st')
      → Settled st id row d done e st'
  unfolding settle
  settle-Settled env id row d st st' done e v there h =
      let (raw, st₀, r₀, h₀) = >>=-ok (lift_game (d.engine.raw row.state)) _ st h in
      let (raw_is, same₀) = lift_game-ok (d.engine.raw row.state) st r₀ in
      let (done', mid, r₁, h₁) =
        >>=-ok (attempt env finish (finish_game_session env id)) _ st₀ h₀ in
      let (e', st₂, r₂, h₂) =
        >>=-ok
          (attempt env insert_score
            (create_score_event env row.user_id id row.game raw (points_of f d raw)))
          _ mid h₁ in
      let ended : finish_game_session env id st ≡ ok (done', mid) =
        rw same₀ at (attempt-ok env finish (finish_game_session env id) st₀ r₁) in
      let inserted =
        attempt-ok env insert_score
          (create_score_event env row.user_id id row.game raw (points_of f d raw)) mid r₂ in
      let (p, q, r) = ok-pair-injective done' done e' e st₂ st' h₂ in
      let ended' = ended ∙ ap (λ t. ok (t, mid)) p in
      let inserted' = inserted ∙ (ap (λ t. ok (t, st₂)) q ∙ ap (λ t. ok (e, t)) r) in
      let (valid, now, is, first, raw_of_e, points_of_e, _, in_front, free) =
        finish_and_score env id row raw (points_of f d raw) st mid st' done e v there ended'
          inserted' in
      (
        valid,
        now,
        ap (λ t. t.status) is,
        first,
        raw_is ∙ ap ok (sym raw_of_e),
        points_of_e ∙ ap (points_of f d) (sym raw_of_e),
        ap (λ t. t.user_id) is,
        ap (λ t. t.game) is,
        ap (λ t. t.state) is,
        in_front,
        free,
      )
