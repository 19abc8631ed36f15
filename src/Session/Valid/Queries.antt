-- ===== src/Session/Valid/Queries.antt =====
-- internal/store/db/sessions.sql.go: each query that succeeds, and what it leaves.
use podium.Base.{
  ℕ, ◌+◌, ◌≡◌, refl, sym, ap, ◌∙◌, ◌≢◌, inl, inr, true, false, Option, none, some, Result, ok, err,
  arith, ◌==◌, Bool-cases, subst, Bool, if◌then◌else◌,
}
use podium.Games.Common.{Bytes, Time}
use podium.Games.Common as Games
use podium.Games.Registry.{Slug}
use podium.Session.Store.{
  Status, active, finished, abandoned, is_active, GameSession, ScoreEvent, Store, Failure, Call,
  Env, Tx, and_then, ◌>>=◌, lift_game, attempt, update, is_open, abandon_row,
  abandon_active_sessions, fresh_row, insert_at, create_game_session, saved,
  save_game_session_state, event_of,
}
use podium.Session.Valid.{open_row, Agrees, IsValid}

pub finished_closed : (s : Status) → is_active s ≡ true → s ≢ finished
finished_closed active h e = cc
finished_closed finished h e = cc
finished_closed abandoned h e = cc

-- Abandoning opens no row, and leaves none open for the user and the game.
abandon_row_closed :
    (seen : Bool) (user : ℕ) (slug : Slug) (at : Time) (o : Option GameSession)
    → (if seen then open_row user slug (abandon_row seen user slug at o) else false) ≡ false
abandon_row_closed true user slug at none = refl
abandon_row_closed true user slug at (some row) = ground arith
abandon_row_closed false user slug at o = refl

pub update_self :
    (m : ℕ → Option GameSession) (id : ℕ) (row : GameSession) → update m id row id ≡ some row
update_self m id row = ground arith

-- A row that is open only if the one before it was.
pub update_open :
    (old : ℕ → Option GameSession) (id : ℕ) (row row' : GameSession) (u : ℕ) (s : Slug) (i : ℕ)
    → old id ≡ some row
    → (is_open u s row' ≡ true → is_open u s row ≡ true)
    → open_row u s (update old id row' i) ≡ true
    → open_row u s (old i) ≡ true
update_open old id row row' u s i was less h = elim (Bool-cases (i == id)) [
  | inl same ↦ let e : i ≡ id = ground arith in rw (e, was) (less (rw same at h))
  | inr other ↦ rw other at h
]

module _ {F : Type 0} where
  and_then-ok :
      {A B : Type 0} (r : Result Failure (A × Store F)) (k : A → Tx F B) {b : B × Store F}
      → and_then r k ≡ ok b
      → (a : A) × (st : Store F) × (r ≡ ok (a, st)) × (k a st ≡ ok b)
  and_then-ok (err e) k h = cc
  and_then-ok (ok (a, st)) k h = (a, st, refl, h)

  -- A step that succeeds after another: both did.
  pub >>=-ok :
      {A B : Type 0} (m : Tx F A) (k : A → Tx F B) (st : Store F) {b : B × Store F}
      → (m >>= k) st ≡ ok b
      → (a : A) × (st' : Store F) × (m st ≡ ok (a, st')) × (k a st' ≡ ok b)
  >>=-ok m k st h = and_then-ok (m st) k h

  pub attempt-ok :
      {A : Type 0} (env : Env) (call : Call) (m : Tx F A) (st : Store F) {r : A × Store F}
      → attempt env call m st ≡ ok r
      → m st ≡ ok r
  attempt-ok env call m st h = ground arith

  pub lift_game-ok :
      {A : Type 0} (r : Result Games.Error A) (st : Store F) {a : A × Store F}
      → lift_game r st ≡ ok a
      → (r ≡ ok a.0) × (a.1 ≡ st)
  lift_game-ok (ok a) st h = (cc, cc)
  lift_game-ok (err e) st h = cc

  abandon_row-Agrees :
      (seen : Bool) (user : ℕ) (slug : Slug) (at : Time) (o : Option GameSession)
      (e : Option (ScoreEvent F))
      → Agrees o e
      → Agrees (abandon_row seen user slug at o) e
  abandon_row-Agrees seen user slug at none e h = h
  abandon_row-Agrees seen user slug at (some row) none h = ground arith
  abandon_row-Agrees seen user slug at (some row) (some e) h =
      ground (arith, finished_closed row.status)

  pub abandon_active_sessions-IsValid :
      (env : Env) (user : ℕ) (slug : Slug) (st st' : Store F)
      → IsValid st
      → abandon_active_sessions env user slug st ≡ ok (tt, st')
      → IsValid st'
        × ((i : ℕ) → (if env.sees i then open_row user slug (st'.sessions i) else false) ≡ false)
  unfolding abandon_active_sessions
  abandon_active_sessions-IsValid env user slug st st' v e =
      subst
        (λ (t : Store F).
          IsValid t
          × ((i : ℕ) → (if env.sees i then open_row user slug (t.sessions i) else false) ≡ false))
        (ground (arith))
        (
          record {
            agrees = λ i.
                abandon_row-Agrees (env.sees i) user slug env.db_now (st.sessions i)
                  (event_of i st.events) (v.agrees i);
            one_event = v.one_event;
            issued = v.issued;
          },
          λ i. abandon_row_closed (env.sees i) user slug env.db_now (st.sessions i),
        )

  insert_at-ok :
      (id : ℕ) (row : GameSession) (o : Option GameSession) (st : Store F) {r : GameSession}
      {st' : Store F}
      → insert_at id row o st ≡ ok (r, st')
      → (o ≡ none) × (r ≡ row) × (st' ≡ record st { sessions = update st.sessions id row })
  insert_at-ok id row none st e = (refl, cc, cc)
  insert_at-ok id row (some taken) st e = cc

  fill-Agrees :
      (row : GameSession) (o : Option GameSession) (e : Option (ScoreEvent F))
      → row.status ≢ finished
      → o ≡ none
      → Agrees o e
      → Agrees (some row) e
  fill-Agrees row none none h free a = h
  fill-Agrees row none (some e) h free a = absurd a
  fill-Agrees row (some other) e h free a = cc

  -- A row that is not finished may be put where there was none.
  update-Agrees :
      (st : Store F) (id : ℕ) (row : GameSession) (i : ℕ)
      → row.status ≢ finished
      → st.sessions id ≡ none
      → Agrees (st.sessions i) (event_of i st.events)
      → Agrees (update st.sessions id row i) (event_of i st.events)
  update-Agrees st id row i unfinished free h = elim (Bool-cases (i == id)) [
    | inl same ↦
        let e : i ≡ id = ground arith in
        rw same (
          fill-Agrees row (st.sessions i) (event_of i st.events) unfinished
            (ap st.sessions e ∙ free) h)
    | inr other ↦ rw other h
  ]

  -- A new session, at an id that was free.
  pub create_game_session-IsValid :
      (env : Env) (user : ℕ) (slug : Slug) (seed : ℕ) (state : Bytes) (deadline : Option Time)
      (st st' : Store F) (row : GameSession)
      → IsValid st
      → create_game_session env user slug seed state deadline st ≡ ok (row, st')
      → IsValid st'
        × (st'.sessions env.new_id ≡ some row)
        × (st.sessions env.new_id ≡ none)
        × (row ≡ fresh_row env user slug seed state deadline)
        × (st' ≡ record st { sessions = update st.sessions env.new_id row })
  unfolding create_game_session
  create_game_session-IsValid env user slug seed state deadline st st' row v e =
      let (free, same, after) =
        insert_at-ok env.new_id (fresh_row env user slug seed state deadline)
          (st.sessions env.new_id) st e in
      rw (after, same)
        (
          record {
            agrees = λ i. update-Agrees st env.new_id _ i (λ c. cc) free (v.agrees i);
            one_event = v.one_event;
            issued = v.issued;
          },
          update_self st.sessions env.new_id (fresh_row env user slug seed state deadline),
          free,
          refl,
          refl,
        )

  saved-ok :
      (id : ℕ) (state : Bytes) (o : Option GameSession) (st st' : Store F) {r : GameSession}
      → saved id state o st ≡ ok (r, st')
      → (row : GameSession) × (o ≡ some row)
        × (r ≡ record row { state = state; moves = row.moves + 1 })
        × (st' ≡ record st { sessions = update st.sessions id r })
  saved-ok id state none st st' e = cc
  saved-ok id state (some row) st st' e = (row, refl, ground arith, ground arith)

  same-Agrees :
      (row row' : GameSession) (e : Option (ScoreEvent F))
      → row'.status ≡ row.status
      → row'.user_id ≡ row.user_id
      → row'.game ≡ row.game
      → Agrees (some row) e
      → Agrees (some row') e
  same-Agrees row row' none s u g h = λ c. h (sym s ∙ c)
  same-Agrees row row' (some e) s u g h = (s ∙ h.0, h.1 ∙ sym u, h.2 ∙ sym g)

  pub update_same-Agrees :
      (st : Store F) (id : ℕ) (row row' : GameSession) (i : ℕ)
      → st.sessions id ≡ some row
      → row'.status ≡ row.status
      → row'.user_id ≡ row.user_id
      → row'.game ≡ row.game
      → Agrees (st.sessions i) (event_of i st.events)
      → Agrees (update st.sessions id row' i) (event_of i st.events)
  update_same-Agrees st id row row' i was s u g h = elim (Bool-cases (i == id)) [
    | inl same ↦
        let e : i ≡ id = ground arith in
        let h' = subst (λ o. Agrees o (event_of i st.events)) (ap st.sessions e ∙ was) h in
        rw same (same-Agrees row row' (event_of i st.events) s u g h')
    | inr other ↦ rw other h
  ]

  -- Saving a state keeps the tables valid, and the row but for its state and one more move.
  pub save_game_session_state-IsValid :
      (id : ℕ) (state : Bytes) (st st' : Store F) (r : GameSession)
      → IsValid st
      → save_game_session_state id state st ≡ ok (r, st')
      → IsValid st'
        × (row : GameSession) × (st.sessions id ≡ some row)
        × (r ≡ record row { state = state; moves = row.moves + 1 })
        × (st' ≡ record st { sessions = update st.sessions id r })
  unfolding save_game_session_state
  save_game_session_state-IsValid id state st st' r v e =
      let (row, was, now, after) = saved-ok id state (st.sessions id) st st' e in
      (
        rw after (record {
          agrees = λ i.
              update_same-Agrees st id row r i was (ap (λ t. t.status) now)
                (ap (λ t. t.user_id) now) (ap (λ t. t.game) now) (v.agrees i);
          one_event = v.one_event;
          issued = v.issued;
        }),
        row,
        was,
        now,
        after,
      )
