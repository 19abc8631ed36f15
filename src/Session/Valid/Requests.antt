-- ===== src/Session/Valid/Requests.antt =====
-- internal/session/session.go: what the steps of a transaction have in common when they succeed,
-- and the transaction of `Start`.
use podium.Base.{
  ℕ, ◌≡◌, true, Option, some, Result, ok, err, arith, unless-ok, Bool, false, if◌then◌else◌,
  Bool-cases, ◌==◌, inl, inr, refl,
}
use podium.Games.Common.{Bytes, Time}
use podium.Games.Registry.{Slug}
use podium.Session.Store.{
  is_active, GameSession, Store, Failure, abandon, create, commit, begin, unavailable, Env, Tx,
  ◌>>=◌, attempt, get_game_session, abandon_active_sessions, create_game_session, fresh_row, update,
}
use podium.Session.Service.{transact, committed, owned, open_}
use podium.Session.Valid.{IsValid, open_row}
use podium.Session.Valid.Queries.{
  >>=-ok, attempt-ok, abandon_active_sessions-IsValid, create_game_session-IsValid,
}

module _ {F : Type 0} where
  committed-ok :
      {A : Type 0} (env : Env) (st : Store F) (o : Result Failure (A × Store F)) {r : A × Store F}
      → committed env st o ≡ ok r
      → o ≡ ok r
  committed-ok env st (err e) h = h
  committed-ok env st (ok r) h = (unless-ok (env.fails commit) unavailable (ok r) h).1

  pub transact-ok :
      {A : Type 0} (env : Env) (body : Tx F A) (st : Store F) {r : A × Store F}
      → transact env body st ≡ ok r
      → body st ≡ ok r
  unfolding transact
  transact-ok env body st h =
      committed-ok env st (body st)
        (unless-ok (env.fails begin) unavailable (committed env st (body st)) h).1

  pub owned-ok :
      (user : ℕ) (row : GameSession) (st st' : Store F)
      → owned user row st ≡ ok (tt, st')
      → (row.user_id ≡ user) × (st' ≡ st)
  owned-ok user row st st' h = ground arith

  pub open-ok :
      (row : GameSession) (st st' : Store F)
      → open_ row st ≡ ok (tt, st')
      → (is_active row.status ≡ true) × (st' ≡ st)
  open-ok row st st' h = ground arith

  pub get_game_session-ok :
      (id : ℕ) (st st' : Store F) {row : GameSession}
      → get_game_session id st ≡ ok (row, st')
      → (st.sessions id ≡ some row) × (st' ≡ st)
  unfolding get_game_session
  get_game_session-ok id st st' h = ground arith

  -- A session other than the new one, which the Start saw, that is open for the user and the game.
  abbrev pub other_open : Env → ℕ → Slug → Store F → ℕ → Bool
  other_open env user slug st i =
      if i == env.new_id
      then false
      else (if env.sees i then open_row user slug (st.sessions i) else false)

  stored_closed :
      (env : Env) (user : ℕ) (slug : Slug) (row : GameSession) (mid : Store F) (i : ℕ)
      → (if env.sees i then open_row user slug (mid.sessions i) else false) ≡ false
      → other_open env user slug (record mid { sessions = update mid.sessions env.new_id row }) i
        ≡ false
  stored_closed env user slug row mid i closed = elim (Bool-cases (i == env.new_id)) [
    | inl own ↦ rw own refl
    | inr other ↦ rw other closed
  ]

  -- The transaction of `Start`.
  pub opened :
      (env : Env) (user : ℕ) (slug : Slug) (seed : ℕ) (state : Bytes) (deadline : Option Time)
      (st st' : Store F) (row : GameSession)
      → IsValid st
      → (attempt env abandon (abandon_active_sessions env user slug) >>= λ _.
            attempt env create (create_game_session env user slug seed state deadline))
          st
        ≡ ok (row, st')
      → IsValid st'
        × (st'.sessions env.new_id ≡ some row)
        × (row ≡ fresh_row env user slug seed state deadline)
        × ((i : ℕ) → other_open env user slug st' i ≡ false)
  opened env user slug seed state deadline st st' row v h =
      let (done, mid, first, second) =
        >>=-ok (attempt env abandon (abandon_active_sessions env user slug)) _ st h in
      let (valid, closed) =
        abandon_active_sessions-IsValid env user slug st mid v
          (attempt-ok env abandon (abandon_active_sessions env user slug) st first) in
      let (after, there, _, is, store) =
        create_game_session-IsValid env user slug seed state deadline mid st' row valid (
          attempt-ok env create (create_game_session env user slug seed state deadline) mid
            second) in
      (after, there, is, λ i. rw store (stored_closed env user slug row mid i (closed i)))
