-- ===== src/Session/Valid/Marks.antt =====
-- internal/store/db/sessions.sql.go: `MarkScoreEventProjected` changes no more than the mark, so
-- that publishing a score keeps the tables valid and every score as it was.
use podium.Base.{
  ℕ, ◌≡◌, refl, inl, inr, Option, none, some, List, [], ◌∷◌, arith, ◌==◌, if◌then◌else◌, Bool-cases,
}
use podium.Games.Common.{Time}
use podium.Session.Store.{
  GameSession, ScoreEvent, Store, Env, event_of, mark_events, mark_score_event_projected,
}
use podium.Session.Service.{Score, score_from}
use podium.Session.Valid.{Agrees, AllIssued, IsValid, AllOnce}

module _ {F : Type 0} where
  abbrev marked : Time → ℕ → ScoreEvent F → ScoreEvent F
  marked at k e = if e.id == k then record e { projected_at = some at } else e

  abbrev pub map_event :
      (ScoreEvent F → ScoreEvent F) → Option (ScoreEvent F) → Option (ScoreEvent F)
  map_event g none = none
  map_event g (some e) = some (g e)

  marked-session :
      (at : Time) (k : ℕ) (e : ScoreEvent F) → (marked at k e).session_id ≡ e.session_id
  marked-session at k e = ground arith

  event_of-mark_events :
      (at : Time) (k i : ℕ) (es : List (ScoreEvent F))
      → event_of i (mark_events at k es) ≡ map_event (marked at k) (event_of i es)
  unfolding event_of mark_events
  event_of-mark_events at k i [] = refl
  event_of-mark_events at k i (e ∷ es) = elim (Bool-cases (e.session_id == i)) [
    | inl hit ↦ rw (marked-session at k e, hit) refl
    | inr miss ↦ rw (marked-session at k e, miss) (event_of-mark_events at k i es)
  ]

  marked-Agrees :
      (at : Time) (k : ℕ) (o : Option GameSession) (e : Option (ScoreEvent F))
      → Agrees o e
      → Agrees o (map_event (marked at k) e)
  marked-Agrees at k none none h = h
  marked-Agrees at k none (some e) h = h
  marked-Agrees at k (some row) none h = h
  marked-Agrees at k (some row) (some e) h = ground (arith, h)

  AllIssued-mark_events :
      (at : Time) (k n : ℕ) (es : List (ScoreEvent F))
      → AllIssued n es
      → AllIssued n (mark_events at k es)
  unfolding mark_events
  AllIssued-mark_events at k n [] h = tt
  AllIssued-mark_events at k n (e ∷ es) h =
      let rest = AllIssued-mark_events at k n es h.3 in
      elim (Bool-cases (e.id == k)) [
        | inl hit ↦ rw hit (h.0, h.1, h.2, rest)
        | inr miss ↦ rw miss (h.0, h.1, h.2, rest)
      ]

  AllOnce-mark_events :
      (at : Time) (k : ℕ) (es : List (ScoreEvent F)) → AllOnce es → AllOnce (mark_events at k es)
  unfolding mark_events
  AllOnce-mark_events at k [] h = tt
  AllOnce-mark_events at k (e ∷ es) (once, h) =
      let rest = AllOnce-mark_events at k es h in
      let free : event_of e.session_id (mark_events at k es) ≡ none =
        rw (event_of-mark_events at k e.session_id es, once) refl in
      elim (Bool-cases (e.id == k)) [
        | inl hit ↦ rw hit (free, rest)
        | inr miss ↦ rw miss (free, rest)
      ]

  pub mark_score_event_projected-IsValid :
      (env : Env) (k : ℕ) (st : Store F)
      → IsValid st
      → IsValid (mark_score_event_projected env k st)
  unfolding mark_score_event_projected
  mark_score_event_projected-IsValid env k st v = record {
    agrees = λ i.
        rw (event_of-mark_events env.db_now k i st.events)
          (marked-Agrees env.db_now k (st.sessions i) (event_of i st.events) (v.agrees i));
    one_event = AllOnce-mark_events env.db_now k st.events v.one_event;
    issued = AllIssued-mark_events env.db_now k st.next_event st.events v.issued;
  }

  -- The score of a session in the tables.
  abbrev pub as_score : Option (ScoreEvent F) → Option (Score F)
  as_score none = none
  as_score (some e) = some (score_from e)

  abbrev pub score_in : ℕ → Store F → Option (Score F)
  score_in id st = as_score (event_of id st.events)

  marked-score :
      (at : Time) (k : ℕ) (e : Option (ScoreEvent F))
      → as_score (map_event (marked at k) e) ≡ as_score e
  unfolding score_from
  marked-score at k none = refl
  marked-score at k (some e) = elim (Bool-cases (e.id == k)) [
    | inl hit ↦ rw hit refl
    | inr miss ↦ rw miss refl
  ]

  pub mark_score_event_projected-score_in :
      (env : Env) (k i : ℕ) (st : Store F)
      → score_in i (mark_score_event_projected env k st) ≡ score_in i st
  unfolding mark_score_event_projected
  mark_score_event_projected-score_in env k i st =
      rw (event_of-mark_events env.db_now k i st.events)
        (marked-score env.db_now k (event_of i st.events))
