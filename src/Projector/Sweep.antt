-- ===== src/Projector/Sweep.antt =====
-- internal/projector/projector.go: what a sweep does to the tables.
use podium.Base.{
  ℕ, ◌+◌, ◌≤◌, ◌≡◌, refl, ◌∙◌, inl, inr, true, ◌&&◌, Option, none, some, List, [], ◌∷◌, arith, ◌==◌,
  if◌then◌else◌, Bool-cases, length, ◌≢◌, subst,
}
use podium.Games.Common.{Time}
use podium.Session.Store.{
  GameSession, ScoreEvent, Store, load, mark, Env, event_of, mark_events,
  mark_score_event_projected,
}
use podium.Session.Operations.{World, Submit}
use podium.Games.Registry.{Slug}
use podium.Session.Valid.{open_row, Agrees, IsValid}
use podium.Session.Valid.Queries.{finished_closed}
use podium.Session.Valid.Marks.{
  score_in, mark_score_event_projected-IsValid, mark_score_event_projected-score_in,
}
use podium.Projector.{
  is_pending, list_unprojected_score_events, abandon_stale, abandon_stale_sessions, marked_after,
  publish, sweep_events, sweep,
}

module _ {F B P : Type 0} (submit : Submit B P) where
  -- The tables that a sweep may leave: valid, with every session's score as it was.
  abbrev pub Kept : Store F → Store F → Type 0
  Kept old new = IsValid new × ((i : ℕ) → score_in i new ≡ score_in i old)

  mark-Kept :
      (env : Env) (k : ℕ) (old st : Store F)
      → Kept old st
      → Kept old (mark_score_event_projected env k st)
  mark-Kept env k old st (valid, same) = (
    mark_score_event_projected-IsValid env k st valid,
    λ i. mark_score_event_projected-score_in env k i st ∙ same i,
  )

  marked_after-Kept :
      (env : Env) (e : ScoreEvent F) (old : Store F) (w : World F B) (r : Option P × B)
      → Kept old w.store
      → Kept old (marked_after submit env e w r).1.store
  marked_after-Kept env e old w (none, boards) k = k
  marked_after-Kept env e old w (some p, boards) k = elim (Bool-cases (env.fails mark)) [
    | inl bad ↦ rw bad k
    | inr good ↦ rw good (mark-Kept env e.id old w.store k)
  ]

  sweep_events-Kept :
      (envs : ℕ → Env) (es : List (ScoreEvent F)) (n : ℕ) (old : Store F) (w : World F B)
      → Kept old w.store
      → Kept old (sweep_events submit envs es n w).1.store
  unfolding sweep_events publish
  sweep_events-Kept envs [] n old w k = k
  sweep_events-Kept envs (e ∷ es) n old w k =
      let r = publish submit (envs e.id) e w in
      let one =
        marked_after-Kept (envs e.id) e old w
          (submit e.user_id e.game e.points e.achieved_at w.boards) k in
      elim (Bool-cases r.0) [
        | inl good ↦ rw good (sweep_events-Kept envs es (n + 1) old r.1 one)
        | inr bad ↦ rw bad one
      ]

  -- A sweep keeps valid tables valid and every session's score as it was, whatever fails.
  pub sweep-Kept :
      (env : Env) (envs : ℕ → Env) (batch : ℕ) (w : World F B)
      → IsValid w.store
      → Kept w.store (sweep submit env envs batch w).1.store
  unfolding sweep
  sweep-Kept env envs batch w v = elim (Bool-cases (env.fails load)) [
    | inl bad ↦ rw bad (v, λ i. refl)
    | inr good ↦ rw good (sweep_events-Kept envs _ 0 w.store w (v, λ i. refl))
  ]

-- How many events with an id are not marked as projected.
unfoldable pub left : {F : Type 0} → ℕ → List (ScoreEvent F) → ℕ
left k [] = 0
left k (e ∷ es) = (if (e.id == k) && is_pending e then 1 else 0) + left k es

module _ {F : Type 0} where
  left-marked : (at : Time) (k : ℕ) (es : List (ScoreEvent F)) → left k (mark_events at k es) ≡ 0
  unfolding left mark_events
  left-marked at k [] = refl
  left-marked at k (e ∷ es) = elim (Bool-cases (e.id == k)) [
    | inl hit ↦ rw (hit, left-marked at k es) (ground arith)
    | inr miss ↦ rw (miss, left-marked at k es) (ground arith)
  ]

  left-mark_events :
      (at : Time) (j k : ℕ) (es : List (ScoreEvent F)) → left k (mark_events at j es) ≤ left k es
  unfolding left mark_events
  left-mark_events at j k [] = omega arith
  left-mark_events at j k (e ∷ es) =
      let less = left-mark_events at j k es in
      elim (Bool-cases (e.id == j)) [
        | inl hit ↦ rw hit (ground (arith, less))
        | inr miss ↦ rw miss (omega (arith, less))
      ]

module _ {F B P : Type 0} (submit : Submit B P) where
  marked_after-left :
      (env : Env) (e : ScoreEvent F) (k : ℕ) (w : World F B) (r : Option P × B)
      → (left k (marked_after submit env e w r).1.store.events ≤ left k w.store.events)
        × ((marked_after submit env e w r).0 ≡ true
            → left e.id (marked_after submit env e w r).1.store.events ≡ 0)
  unfolding mark_score_event_projected
  marked_after-left env e k w (none, boards) = (omega arith, λ c. cc)
  marked_after-left env e k w (some p, boards) = elim (Bool-cases (env.fails mark)) [
    | inl bad ↦ rw bad (omega arith, λ c. cc)
    | inr good ↦ rw good (
      left-mark_events env.db_now e.id k w.store.events,
      λ c. left-marked env.db_now e.id w.store.events,
    )
  ]

  sweep_events-left :
      (envs : ℕ → Env) (es : List (ScoreEvent F)) (n k : ℕ) (w : World F B)
      → left k (sweep_events submit envs es n w).1.store.events ≤ left k w.store.events
  unfolding sweep_events publish
  sweep_events-left envs [] n k w = omega arith
  sweep_events-left envs (e ∷ es) n k w =
      let r = publish submit (envs e.id) e w in
      let (one, _) =
        marked_after-left (envs e.id) e k w
          (submit e.user_id e.game e.points e.achieved_at w.boards) in
      let rest = sweep_events-left envs es (n + 1) k r.1 in
      elim (Bool-cases r.0) [ inl good ↦ rw good (omega (arith, one, rest)) | inr bad ↦ rw bad one ]

  -- No event of a batch is left without its mark.
  abbrev pub AllMarked : List (ScoreEvent F) → List (ScoreEvent F) → Type 0
  AllMarked [] events = Unit {0}
  AllMarked (e ∷ es) events = (left e.id events ≡ 0) × AllMarked es events

  -- What the boards are after each of some events is submitted, in order, and placed.
  abbrev pub Published : List (ScoreEvent F) → B → B → Type 0
  Published [] before after = after ≡ before
  Published (e ∷ es) before after =
      let r = submit e.user_id e.game e.points e.achieved_at before in
      (r.0 ≢ none) × Published es r.1 after

  marked_after-boards :
      (env : Env) (e : ScoreEvent F) (w : World F B) (r : Option P × B)
      → (marked_after submit env e w r).0 ≡ true
      → (r.0 ≢ none) × ((marked_after submit env e w r).1.boards ≡ r.1)
  marked_after-boards env e w (none, boards) h = cc
  marked_after-boards env e w (some p, boards) h = elim (Bool-cases (env.fails mark)) [
    | inl bad ↦ cc (rw bad at h)
    | inr good ↦ (λ c. cc, rw good refl)
  ]

  sweep_events-Published :
      (envs : ℕ → Env) (es : List (ScoreEvent F)) (n : ℕ) (w : World F B)
      → (sweep_events submit envs es n w).0.1 ≡ none
      → Published es w.boards (sweep_events submit envs es n w).1.boards
  unfolding sweep_events publish
  sweep_events-Published envs [] n w h = refl
  sweep_events-Published envs (e ∷ es) n w h =
      let r = publish submit (envs e.id) e w in
      let one =
        marked_after-boards (envs e.id) e w
          (submit e.user_id e.game e.points e.achieved_at w.boards) in
      elim (Bool-cases r.0) [
        | inl good ↦ rw good (
          (one good).0,
          subst (λ b. Published es b (sweep_events submit envs es (n + 1) r.1).1.boards)
              (one good).1 (sweep_events-Published envs es (n + 1) r.1 (rw good at h)),
        )
        | inr bad ↦ cc (rw bad at h)
      ]

  sweep_events-AllMarked :
      (envs : ℕ → Env) (es : List (ScoreEvent F)) (n : ℕ) (w : World F B)
      → (sweep_events submit envs es n w).0.1 ≡ none
      → AllMarked es (sweep_events submit envs es n w).1.store.events
        × ((sweep_events submit envs es n w).0.0 ≡ n + length es)
  unfolding sweep_events publish
  sweep_events-AllMarked envs [] n w h = (tt, ground arith)
  sweep_events-AllMarked envs (e ∷ es) n w h =
      let r = publish submit (envs e.id) e w in
      let (_, gone) =
        marked_after-left (envs e.id) e e.id w
          (submit e.user_id e.game e.points e.achieved_at w.boards) in
      let still = sweep_events-left envs es (n + 1) e.id r.1 in
      elim (Bool-cases r.0) [
        | inl good ↦
            let (rest, count) = sweep_events-AllMarked envs es (n + 1) r.1 (rw good at h) in
            rw good ((omega (arith, still, gone good), rest), omega (arith, count))
        | inr bad ↦ cc (rw bad at h)
      ]

  -- A sweep that ends without a failure published and marked all of its batch: the boards are those
  -- that submitting the events of the batch in order leaves, each of which was placed, no event with
  -- an id of the batch is left without its mark, and the count is the size of the batch.
  pub sweep-AllMarked :
      (env : Env) (envs : ℕ → Env) (batch : ℕ) (w : World F B)
      → (sweep submit env envs batch w).0.1 ≡ none
      → Published
          (list_unprojected_score_events batch w.store)
          w.boards
          (sweep submit env envs batch w).1.boards
        × AllMarked
            (list_unprojected_score_events batch w.store)
            (sweep submit env envs batch w).1.store.events
        × ((sweep submit env envs batch w).0.0
            ≡ length (list_unprojected_score_events batch w.store))
  unfolding sweep
  sweep-AllMarked env envs batch w h = elim (Bool-cases (env.fails load)) [
    | inl bad ↦ cc (rw bad at h)
    | inr good ↦
        let batch_of = list_unprojected_score_events batch w.store in
        let (all_, count) = sweep_events-AllMarked envs batch_of 0 w (rw good at h) in
        rw good
          (sweep_events-Published envs batch_of 0 w (rw good at h), all_, omega (arith, count))
  ]

abandon_stale-open :
    (before at : Time) (u : ℕ) (slug : Slug) (o : Option GameSession)
    → open_row u slug (abandon_stale before at o) ≡ true
    → open_row u slug o ≡ true
abandon_stale-open before at u slug none h = h
abandon_stale-open before at u slug (some row) h = ground arith

abandon_stale-Agrees :
    {F : Type 0} (before at : Time) (o : Option GameSession) (e : Option (ScoreEvent F))
    → Agrees o e
    → Agrees (abandon_stale before at o) e
abandon_stale-Agrees before at none e h = h
abandon_stale-Agrees before at (some row) none h = ground arith
abandon_stale-Agrees before at (some row) (some e) h = ground (arith, finished_closed row.status, h)

-- Abandoning the sessions that are open for too long keeps valid tables valid.
pub abandon_stale_sessions-IsValid :
    {F : Type 0} (env : Env) (before : Time) (st : Store F)
    → IsValid st
    → IsValid (abandon_stale_sessions env before st)
unfolding abandon_stale_sessions
abandon_stale_sessions-IsValid env before st v = record {
  agrees = λ i.
      abandon_stale-Agrees before env.db_now (st.sessions i) (event_of i st.events) (v.agrees i);
  one_event = v.one_event;
  issued = v.issued;
}
