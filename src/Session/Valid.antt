-- ===== src/Session/Valid.antt =====
-- What holds of the tables between two requests: a session has one score event if it is finished,
-- for its user and its game, and none otherwise.
pub mod Queries
pub mod Settle
pub mod Requests
pub mod Steps
pub mod Keeps
pub mod Marks
pub mod Served
pub mod Traffic
pub mod Succeeds
use podium.Base.{
  ℕ, suc, ◌+◌, ◌≤◌, ◌<◌, ◌≡◌, ◌≢◌, Bool, true, false, ◌&&◌, Option, none, some, List, [], ◌∷◌,
  Result, ok, err,
}
use podium.Base.Int.{ℤ, pos, ◌≤ℤ◌}
use podium.Games.Registry.{Slug}
use podium.Session.Store.{finished, GameSession, ScoreEvent, Store, is_open, event_of, Tx}

abbrev pub open_row : ℕ → Slug → Option GameSession → Bool
open_row user slug none = false
open_row user slug (some row) = is_open user slug row

module _ {F : Type 0} where
  abbrev pub Agrees : Option GameSession → Option (ScoreEvent F) → Type 0
  Agrees none none = Unit {0}
  Agrees none (some e) = ⊥
  Agrees (some row) none = row.status ≢ finished
  Agrees (some row) (some e) =
      (row.status ≡ finished) × (e.user_id ≡ row.user_id) × (e.game ≡ row.game)

  -- Every event has an id that was handed out, and points on the scale.
  abbrev pub AllIssued : ℕ → List (ScoreEvent F) → Type 0
  AllIssued n [] = Unit {0}
  AllIssued n (e ∷ es) = (e.id < n) × (pos 0 ≤ℤ e.points) × (e.points ≤ℤ pos 10000) × AllIssued n es

  -- No session has two events.
  abbrev pub AllOnce : List (ScoreEvent F) → Type 0
  AllOnce [] = Unit {0}
  AllOnce (e ∷ es) = (event_of e.session_id es ≡ none) × AllOnce es

  pub record IsValid (st : Store F) : Type 0 where
    pub agrees : (i : ℕ) → Agrees (st.sessions i) (event_of i st.events)
    pub one_event : AllOnce st.events
    pub issued : AllIssued st.next_event st.events
