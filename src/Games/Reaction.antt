-- ===== src/Games/Reaction.antt =====
-- internal/games/reaction.go. Times are nanoseconds, so the reaction of a tap before the signal
-- is negative; Go truncates its milliseconds toward zero.
pub mod Bounds
use podium.Base.{
  ℕ, zero, suc, ◌+◌, ◌-◌, ◌*◌, ◌/◌, ◌≡◌, min, Bool, true, false, not, Option, none, some, List, [],
  ◌∷◌, ◌++◌, Result, ok, err, ◌>>=◌, leb, ltb, if◌then◌else◌, length,
}
use podium.Base.Int.{ℤ, pos, negsuc, sub_ℕ, ltb_ℤ, ◌+ℤ◌}
use podium.Games.Common.{
  Bytes, Time, Error, invalid_move, already_done, Outcome, outcome, decode_move,
}
use podium.Games.Rng.{Digest, codes, derive_range}

abbrev pub rounds : ℕ
rounds = 5

abbrev pub min_delay_ms : ℕ
min_delay_ms = 1200

abbrev pub max_delay_ms : ℕ
max_delay_ms = 3000

abbrev pub floor_ms : ℕ
floor_ms = 80

abbrev pub foul_ms : ℕ
foul_ms = 500

-- The nanoseconds of a millisecond.
abbrev pub millisecond : ℕ
millisecond = 1000000

-- The action of a move, a JSON string.
pub data Action : Type 0 where
  arm tap other : Action

pub record State : Type 0 where
  pub seed : ℕ
  pub round : ℕ
  pub go_at : Option Time
  pub results : List ℤ
  pub fouls : ℕ
  pub done : Bool

-- What the client may do next.
pub data Next : Type 0 where
  to_arm to_tap to_finish : Next

pub record View : Type 0 where
  pub round : ℕ
  pub rounds : ℕ
  pub armed : Bool
  pub results : List ℤ
  pub fouls : ℕ
  pub next : Next
  pub done : Bool

unfoldable pub start : ℕ → State
start seed = record { seed = seed; round = 0; go_at = none; results = []; fouls = 0; done = false }

abbrev pub is_armed : Option Time → Bool
is_armed none = false
is_armed (some t) = true

unfoldable pub view : State → View
view s = record {
  round = min (s.round + 1) rounds;
  rounds = rounds;
  armed = is_armed s.go_at;
  results = s.results;
  fouls = s.fouls;
  next = if s.done then to_finish else if is_armed s.go_at then to_tap else to_arm;
  done = s.done;
}

-- Duration.Milliseconds of `to` minus `from`.
unfoldable pub elapsed_ms : Time → Time → ℤ
elapsed_ms to from =
    if leb from to then pos ((to - from) / millisecond) else sub_ℕ 0 ((from - to) / millisecond)

abbrev pub hold : Time → Outcome
hold t = record { correct = false; done = false; hold_until = some t }

unfoldable pub arm_round : Digest → State → Time → State × Outcome
arm_round sha256 s now =
    let delay =
      derive_range sha256 s.seed (codes "reaction-delay") s.round min_delay_ms max_delay_ms in
    let go_at = now + delay * millisecond in (record s { go_at = some go_at }, hold go_at)

-- A tap that reacted in `elapsed` milliseconds.
unfoldable pub tap_round : State → ℤ → State × Outcome
tap_round s elapsed =
    let foul = ltb_ℤ elapsed (pos floor_ms) in
    let over = leb rounds (s.round + 1) in
    (
      record s {
        fouls = if foul then s.fouls + 1 else s.fouls;
        results = s.results ++ ((if foul then pos foul_ms else elapsed) ∷ []);
        go_at = none;
        round = s.round + 1;
        done = over;
      },
      outcome (not foul) over,
    )

unfoldable pub arm_move : Digest → State → Time → Option Time → Result Error (State × Outcome)
arm_move sha256 s now (some go_at) = err invalid_move
arm_move sha256 s now none = ok (arm_round sha256 s now)

unfoldable pub tap_move : State → Time → Option Time → Result Error (State × Outcome)
tap_move s now none = err invalid_move
tap_move s now (some go_at) = ok (tap_round s (elapsed_ms now go_at))

unfoldable pub act : Digest → State → Time → Action → Result Error (State × Outcome)
act sha256 s now arm = arm_move sha256 s now s.go_at
act sha256 s now tap = tap_move s now s.go_at
act sha256 s now other = err invalid_move

unfoldable pub move :
    Digest → (Bytes → Option Action) → State → Bytes → Time → Result Error (State × Outcome)
move sha256 decoder s raw now =
    if s.done then err already_done else decode_move decoder raw >>= act sha256 s now

-- The sum of which the metric is the fifth part: every round played, and the foul penalty for
-- each that is missing.
unfoldable pub sum_results : ℤ → List ℤ → ℤ
sum_results total [] = total
sum_results total (r ∷ rs) = sum_results (total +ℤ r) rs

unfoldable pub raw_total : State → ℤ
raw_total s = sum_results (pos 0) s.results +ℤ pos ((rounds - length s.results) * foul_ms)
