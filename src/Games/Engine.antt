-- ===== src/Games/Engine.antt =====
-- internal/games/games.go: `Engine`, the typed `logic` of a game, and the adapter between them,
-- which stores a game's state as JSON. The JSON of a state and of a view is the parameter `Codec`:
-- what encoding/json writes for a state, it reads back.
pub mod Refine
use podium.Base.{ℕ, ◌≡◌, Option, none, some, Result, ok, err, or_fail, ◌>>=◌, >>=-ok, or_fail-ok}
use podium.Games.Common.{Bytes, Time, Error, bad_state, encode_failed, Outcome}

pub record Logic (F S V : Type 0) : Type 0 where
  pub start : ℕ → Time → S
  pub deadline : S → Option Time
  pub view : S → V
  pub move : S → Bytes → Time → Result Error (S × Outcome)
  pub raw : S → F

pub record Codec (S V : Type 0) : Type 0 where
  pub marshal : S → Option Bytes
  pub unmarshal : Bytes → Option S
  pub marshal_view : V → Option Bytes
  pub round_trip : (s : S) (b : Bytes) → marshal s ≡ some b → unmarshal b ≡ some s

pub record Engine (F : Type 0) : Type 0 where
  pub start : ℕ → Time → Result Error (Bytes × Bytes × Option Time)
  pub move : Bytes → Bytes → Time → Result Error (Bytes × Bytes × Outcome)
  pub view : Bytes → Result Error Bytes
  pub raw : Bytes → Result Error F

module _ {F S V : Type 0} (l : Logic F S V) (c : Codec S V) where
  unfoldable pub encode : S → Result Error (Bytes × Bytes)
  encode s = do
    state ← or_fail (c.marshal s) encode_failed
    view ← or_fail (c.marshal_view (l.view s)) encode_failed
    ok (state, view)

  unfoldable pub decode : Bytes → Result Error S
  decode state = or_fail (c.unmarshal state) bad_state

  unfoldable pub engine_start : ℕ → Time → Result Error (Bytes × Bytes × Option Time)
  engine_start seed now = let s = l.start seed now in encode s >>= λ e. ok (e.0, e.1, l.deadline s)

  unfoldable pub engine_move : Bytes → Bytes → Time → Result Error (Bytes × Bytes × Outcome)
  engine_move state raw now = do
    current ← decode state
    r ← l.move current raw now
    e ← encode r.0
    ok (e.0, e.1, r.1)

  unfoldable pub engine_view : Bytes → Result Error Bytes
  engine_view state =
      decode state >>= λ current. or_fail (c.marshal_view (l.view current)) encode_failed

  unfoldable pub engine_raw : Bytes → Result Error F
  engine_raw state = decode state >>= λ current. ok (l.raw current)

  unfoldable pub engine_for : Engine F
  engine_for = record {
    start = engine_start;
    move = engine_move;
    view = engine_view;
    raw = engine_raw;
  }
