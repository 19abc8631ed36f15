-- ===== src/Session/Valid/Served.antt =====
-- internal/session/session.go: what callers may rely on over any sequence of requests, whatever
-- calls fail on the way.
use podium.Base.{
  ℕ, ◌≡◌, ◌≢◌, refl, sym, ap, ◌∙◌, inl, inr, Bool, true, false, ◌&&◌, Option, none, some, Result,
  ok, err, Bool-cases, subst, if◌then◌else◌,
}
use podium.Games.Common.{Bytes}
use podium.Games.Float64.{Float64}
use podium.Games.Registry.{Slug, Registry}
use podium.Session.Store.{
  finished, GameSession, Store, Env, Failure, Tx, begin, mark, sleep, attempt,
  mark_score_event_projected,
}
use podium.Session.Service.{
  Session, Score, session_from, Applied, Ended, start, transact, apply_move, end_session,
}
use podium.Session.Operations.{
  World, Submit, Reply, projected, submit_with, project, started, start_op, get_op, is_held,
  score_of, respond, moved, move_op, finished_reply, finish_op, left_by, store_of, answered,
}
use podium.Session.Valid.{IsValid}
use podium.Session.Valid.Steps.{keep_transact, keep_attempt}
use podium.Session.Valid.Keeps.{
  start_keeps, apply_move_keeps, Finished, end_session_keeps, Shown, get_session_keeps,
}
use podium.Session.Valid.Marks.{
  as_score, score_in, mark_score_event_projected-IsValid, mark_score_event_projected-score_in,
}

module _ (f : Float64) (registry : Registry f.Float) {B P : Type 0}
    (projector : Option (Submit B P)) where
  open f use {Float}

  projected-store :
      (Q : Store Float → Type 0) (env : Env) (event : ℕ) (w : World Float B) (r : Option P × B)
      → Q w.store
      → Q (mark_score_event_projected env event w.store)
      → Q (projected f registry projector env event w r).1.store
  projected-store Q env event w (none, boards) q m = q
  projected-store Q env event w (some p, boards) q m = elim (Bool-cases (env.fails mark)) [
    | inl bad ↦ rw bad q
    | inr good ↦ rw good m
  ]

  submit_with-store :
      (Q : Store Float → Type 0) (o : Option (Submit B P)) (env : Env) (user : ℕ) (s : Score Float)
      (w : World Float B)
      → Q w.store
      → ((k : ℕ) → Q (mark_score_event_projected env k w.store))
      → Q (submit_with f registry projector o env user s w).1.store
  submit_with-store Q none env user s w q m = q
  submit_with-store Q (some submit) env user s w q m =
      projected-store Q env s.event_id w (submit user s.game s.points s.achieved_at w.boards) q
        (m s.event_id)

  -- Publishing changes no more of the tables than a mark.
  project-store :
      (Q : Store Float → Type 0) (env : Env) (user : ℕ) (s : Option (Score Float))
      (w : World Float B)
      → Q w.store
      → ((k : ℕ) → Q (mark_score_event_projected env k w.store))
      → Q (project f registry projector env user s w).1.store
  unfolding project
  project-store Q env user none w q m = q
  project-store Q env user (some score) w q m = submit_with-store Q projector env user score w q m

  one_of-IsValid :
      (b : Bool) (x y : Store Float) → IsValid x → IsValid y → IsValid (if b then x else y)
  one_of-IsValid true x y hx hy = hx
  one_of-IsValid false x y hx hy = hy

  left_by-IsValid :
      {A : Type 0} (env : Env) (m : Env → Tx Float A) (st : Store Float)
      → IsValid st
      → ((a : A) (after : Store Float) → m (answered env) st ≡ ok (a, after) → IsValid after)
      → IsValid (left_by env m st)
  unfolding left_by
  left_by-IsValid {A} env m st v h =
      one_of-IsValid env.lost (store_of st (m (answered env) st)) st
        (of_run (m (answered env) st) h) v
    where
      of_run :
          (r : Result Failure (A × Store Float))
          → ((a : A) (after : Store Float) → r ≡ ok (a, after) → IsValid after)
          → IsValid (store_of st r)
      of_run (err e) h = v
      of_run (ok (a, after)) h = h a after refl

  started-IsValid :
      (left : Store Float) (w : World Float B) (r : Result Failure (Session Float P × Store Float))
      → IsValid left
      → ((s : Session Float P) (st : Store Float) → r ≡ ok (s, st) → IsValid st)
      → IsValid (started f registry projector left w r).1.store
  started-IsValid left w (err e) v h = v
  started-IsValid left w (ok (s, st)) v h = h s st refl

  pub start_op-IsValid :
      (env : Env) (user : ℕ) (slug : Slug) (w : World Float B)
      → IsValid w.store
      → IsValid (start_op f registry projector env user slug w).1.store
  unfolding start_op
  start_op-IsValid env user slug w v =
      started-IsValid (left_by env (λ e. start f registry {P = P} e user slug) w.store) w
        (start f registry env user slug w.store)
        (left_by-IsValid env (λ e. start f registry {P = P} e user slug) w.store v
          (λ s st h. ((start_keeps f registry (answered env) user slug).run w.store st s v h).0))
        (λ s st h. ((start_keeps f registry env user slug).run w.store st s v h).0)

  publish-IsValid :
      (env : Env) (user : ℕ) (s : Option (Score Float)) (w : World Float B)
      → IsValid w.store
      → IsValid (project f registry projector env user s w).1.store
  publish-IsValid env user s w v =
      project-store IsValid env user s w v (λ k. mark_score_event_projected-IsValid env k w.store v)

  respond-IsValid :
      (env : Env) (id : ℕ) (a : Applied f registry) (w : World Float B)
      → IsValid w.store
      → IsValid (respond f registry projector env id a w).1.store
  unfolding respond
  respond-IsValid env id (row, view, hold, event) w v =
      elim (Bool-cases (is_held f registry projector hold && env.fails sleep)) [
        | inl gone ↦ rw gone v
        | inr here ↦
            rw here (publish-IsValid env row.user_id (score_of f registry projector event) w v)
      ]

  moved-IsValid :
      (left : Store Float) (env : Env) (id : ℕ) (w : World Float B)
      (r : Result Failure (Applied f registry × Store Float))
      → IsValid left
      → ((a : Applied f registry) (st : Store Float) → r ≡ ok (a, st) → IsValid st)
      → IsValid (moved f registry projector left env id w r).1.store
  moved-IsValid left env id w (err e) v h = v
  moved-IsValid left env id w (ok (a, st)) v h =
      respond-IsValid env id a (record w { store = st }) (h a st refl)

  pub move_op-IsValid :
      (env : Env) (user id : ℕ) (raw : Bytes) (w : World Float B)
      → IsValid w.store
      → IsValid (move_op f registry projector env user id raw w).1.store
  unfolding move_op
  move_op-IsValid env user id raw w v =
      moved-IsValid (left_by env (λ e. transact e (apply_move f registry e user id raw)) w.store)
        env id w (transact env (apply_move f registry env user id raw) w.store)
        (left_by-IsValid env (λ e. transact e (apply_move f registry e user id raw)) w.store v
          (λ a st h. run (answered env) a st h))
        (λ a st h. run env a st h)
    where
      run :
          (e : Env) (a : Applied f registry) (st : Store Float)
          → transact e (apply_move f registry e user id raw) w.store ≡ ok (a, st)
          → IsValid st
      run e a st h =
          ((keep_transact e _ (apply_move_keeps f registry e user id raw w.store v)).run w.store st
            a refl h).0.0

  finished_reply-IsValid :
      (left : Store Float) (env : Env) (id : ℕ) (w : World Float B)
      (r : Result Failure (Ended f registry × Store Float))
      → IsValid left
      → ((a : Ended f registry) (st : Store Float) → r ≡ ok (a, st) → IsValid st)
      → IsValid (finished_reply f registry projector left env id w r).1.store
  finished_reply-IsValid left env id w (err e) v h = v
  finished_reply-IsValid left env id w (ok ((row, view, score, false), st)) v h =
      h (row, view, score, false) st refl
  finished_reply-IsValid left env id w (ok ((row, view, score, true), st)) v h =
      publish-IsValid env row.user_id (some score) (record w { store = st })
        (h (row, view, score, true) st refl)

  pub finish_op-IsValid :
      (env : Env) (user id : ℕ) (w : World Float B)
      → IsValid w.store
      → IsValid (finish_op f registry projector env user id w).1.store
  unfolding finish_op
  finish_op-IsValid env user id w v =
      finished_reply-IsValid
        (left_by env (λ e. attempt e begin (end_session f registry e user id)) w.store) env id w
        (attempt env begin (end_session f registry env user id) w.store)
        (left_by-IsValid env (λ e. attempt e begin (end_session f registry e user id)) w.store v
          (λ a st h. run (answered env) a st h))
        (λ a st h. run env a st h)
    where
      run :
          (e : Env) (a : Ended f registry) (st : Store Float)
          → attempt e begin (end_session f registry e user id) w.store ≡ ok (a, st)
          → IsValid st
      run e a st h =
          ((keep_attempt e begin _ (end_session_keeps f registry e user id w.store v)).run w.store
            st a refl h).0.0

  reply_pair :
      (a b : Session Float P) (w w' : World Float B)
      → ◌≡◌ {A = Reply f registry projector} (ok a, w) (ok b, w')
      → (a ≡ b) × (w ≡ w')
  reply_pair a b w w' h = (ok_same a b (ap (λ t. t.0) h), ap (λ t. t.1) h)
    where
      ok_same :
          (a b : Session Float P) → ◌≡◌ {A = Result Failure (Session Float P)} (ok a) (ok b) → a ≡ b
      ok_same a b e = cc

  started-Shown :
      (left : Store Float) (user id : ℕ) (w w' : World Float B) (s : Session Float P)
      (r : Result Failure (Session Float P × Store Float))
      → started f registry projector left w r ≡ (ok s, w')
      → ((a : Session Float P) (st : Store Float)
          → r ≡ ok (a, st)
          → Shown f registry user id w.store a st)
      → Shown f registry user id w.store s w.store × (w' ≡ w)
  started-Shown left user id w w' s (err e) h k = cc
  started-Shown left user id w w' s (ok (a, st)) h k =
      let (same, next) = reply_pair a s (record w { store = st }) w' h in
      let (kept, shown, row) = k a st refl in
      (
        (
          refl,
          subst (λ t. t.score ≡ score_in id w.store) same shown,
          (row.0, row.1, row.2, ap (λ t. t.status) (sym same) ∙ row.3),
        ),
        sym next ∙ ap (λ (t : Store Float). record w { store = t }) kept,
      )

  -- On valid tables a `Get` that succeeds is of the session's user, answers its status and the score
  -- that the tables hold for it, and changes neither tables nor boards.
  pub get_op-Shown :
      (env : Env) (user id : ℕ) (w w' : World Float B) (s : Session Float P)
      → IsValid w.store
      → get_op f registry projector env user id w ≡ (ok s, w')
      → Shown f registry user id w.store s w.store × (w' ≡ w)
  unfolding get_op
  get_op-Shown env user id w w' s v h =
      started-Shown w.store user id w w' s _ h
        (λ a st e. (get_session_keeps f registry env user id w.store v).run w.store st a refl e)

  -- What a `Finish` that succeeded leaves: the score that it answered is the one in the tables, and
  -- its session is finished.
  abbrev pub Recorded : ℕ → ℕ → Option (Score Float) → Store Float → Type 0
  Recorded user id score st =
      (score ≡ score_in id st)
      × (score ≢ none)
      × ((row : GameSession) × (st.sessions id ≡ some row)
          × (row.status ≡ finished)
          × (row.user_id ≡ user))

  mark-Recorded :
      (env : Env) (user id k : ℕ) (score : Option (Score Float)) (st : Store Float)
      → Recorded user id score st
      → Recorded user id score (mark_score_event_projected env k st)
  unfolding mark_score_event_projected
  mark-Recorded env user id k score st (is, some_, row) =
      (is ∙ sym (mark_score_event_projected-score_in env k id st), some_, row)

  Finished-Recorded :
      (user id : ℕ) (before st : Store Float) (row : GameSession) (view : Bytes)
      (score : Score Float) (fresh : Bool)
      → Finished f registry user id before (row, view, score, fresh) st
      → Recorded user id (some score) st
  Finished-Recorded user id before st row view score fresh
        ((valid, there, over, whose), (e, event, is), way) =
      (ap some is ∙ sym (ap as_score event), (λ c. cc), (row, there, over, whose))

  finished_reply-Recorded :
      (left : Store Float) (env : Env) (user id : ℕ) (w w' : World Float B) (s : Session Float P)
      (r : Result Failure (Ended f registry × Store Float))
      → ((a : Ended f registry) (st : Store Float)
          → r ≡ ok (a, st)
          → Finished f registry user id w.store a st)
      → finished_reply f registry projector left env id w r ≡ (ok s, w')
      → Recorded user id s.score w'.store × (score_in id w.store ≢ none → w' ≡ w)
  unfolding session_from
  finished_reply-Recorded left env user id w w' s (err e) k h = cc
  finished_reply-Recorded left env user id w w' s (ok ((row, view, score, false), st)) k h =
      let facts = k (row, view, score, false) st refl in
      let (same, next) =
        reply_pair (session_from id row view (some score)) s (record w { store = st }) w' h in
      (
        subst (λ (t : World Float B). Recorded user id s.score t.store) next
            (subst (λ (t : Session Float P). Recorded user id t.score st) same
              (Finished-Recorded user id w.store st row view score false facts)),
        λ was. elim facts.2 [
          | inl (_, kept) ↦ sym next ∙ ap (λ (t : Store Float). record w { store = t }) kept
          | inr (c, _) ↦ cc
        ],
      )
  finished_reply-Recorded left env user id w w' s (ok ((row, view, score, true), st)) k h =
      let facts = k (row, view, score, true) st refl in
      let p = project f registry projector env row.user_id (some score) (record w { store = st }) in
      let (same, next) =
        reply_pair (record (session_from id row view (some score)) { placement = p.0 }) s p.1 w'
          h in
      let kept =
        project-store (Recorded user id (some score)) env row.user_id (some score)
          (record w { store = st }) (Finished-Recorded user id w.store st row view score true facts)
          (λ k.
            mark-Recorded env user id k (some score) st
              (Finished-Recorded user id w.store st row view score true facts)) in
      (
        subst (λ (t : World Float B). Recorded user id s.score t.store) next
            (subst (λ (t : Session Float P). Recorded user id t.score p.1.store) same kept),
        λ was. elim facts.2 [ inl (c, _) ↦ cc | inr (_, free) ↦ absurd (was (ap as_score free)) ],
      )

  finish_op-both :
      (env : Env) (user id : ℕ) (w w' : World Float B) (s : Session Float P)
      → IsValid w.store
      → finish_op f registry projector env user id w ≡ (ok s, w')
      → Recorded user id s.score w'.store × (score_in id w.store ≢ none → w' ≡ w)
  unfolding finish_op
  finish_op-both env user id w w' s v h =
      finished_reply-Recorded _ env user id w w' s _
        (λ a st e.
          (keep_attempt env begin _ (end_session_keeps f registry env user id w.store v)).run
            w.store st a refl e)
        h

  -- On valid tables a `Finish` that succeeds answers a score, the one that the tables then hold for
  -- the session, which is its user's and finished.
  pub finish_op-Recorded :
      (env : Env) (user id : ℕ) (w w' : World Float B) (s : Session Float P)
      → IsValid w.store
      → finish_op f registry projector env user id w ≡ (ok s, w')
      → Recorded user id s.score w'.store
  finish_op-Recorded env user id w w' s v h = (finish_op-both env user id w w' s v h).0

  one_owner :
      {user user' : ℕ} (row row' : GameSession)
      → some row ≡ some row'
      → row'.user_id ≡ user'
      → row.user_id ≡ user
      → user' ≡ user
  one_owner row row' same a b = sym a ∙ sym (ap user_of same) ∙ b
    where
      user_of : Option GameSession → ℕ
      user_of none = 0
      user_of (some r) = r.user_id

  -- Once a `Finish` has succeeded on valid tables, one on the state it left that succeeds too is of
  -- the same user, answers the same score and changes neither tables nor boards.
  pub finish_twice :
      (env env' : Env) (user user' id : ℕ) (w w' w'' : World Float B) (s s' : Session Float P)
      → IsValid w.store
      → finish_op f registry projector env user id w ≡ (ok s, w')
      → finish_op f registry projector env' user' id w' ≡ (ok s', w'')
      → (s'.score ≡ s.score) × (user' ≡ user) × (w'' ≡ w')
  finish_twice env env' user user' id w w' w'' s s' v first second =
      let valid =
        subst (λ (t : Reply f registry projector). IsValid t.1.store) first
          (finish_op-IsValid env user id w v) in
      let ((is, some_, row), _) = finish_op-both env user id w w' s v first in
      let ((is', _, row'), kept) = finish_op-both env' user' id w' w'' s' valid second in
      let same = kept (λ c. some_ (is ∙ c)) in
      let there = ap (λ (t : World Float B). t.store.sessions id) same in
      (
        is' ∙ ap (λ (t : World Float B). score_in id t.store) same ∙ sym is,
        one_owner row.0 row'.0 (sym row.1 ∙ sym there ∙ row'.1) row'.3 row.3,
        same,
      )
