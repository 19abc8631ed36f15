-- ===== src/Games/NumberGuess.antt =====
-- internal/games/numberguess.go. The guess of a move is any Go int; every other number of the
-- state is a small one (`IsValid` bounds it), so it is a plain number.
pub mod Bounds
pub mod Score
pub mod Halving
use podium.Base.{
  ℕ, zero, suc, ◌+◌, ◌-◌, ◌≤◌, ◌<◌, min, max, ◌≡◌, Bool, true, false, ◌||◌, Option, none, some,
  List, [], ◌∷◌, Result, ok, err, or_fail, ◌>>=◌, ◌==◌, leb, ltb, if◌then◌else◌, get_elem?, length,
}
use podium.Base.Int.{ℤ, pos, pos_part, ltb_ℤ, sub_ℕ, ◌+ℤ◌, ◌-ℤ◌, ◌*ℤ◌}
use podium.Games.Common.{
  Bytes, Error, invalid_move, already_done, index_out_of_range, Outcome, outcome, decode_move,
}
use podium.Games.Rng.{Digest, codes, derive_range}

abbrev pub rounds : ℕ
rounds = 3

abbrev pub ceiling : ℕ
ceiling = 100

abbrev pub budget : ℕ
budget = 7

-- What the last guess said.
pub data Hint : Type 0 where
  no_hint correct higher lower out_of_guesses : Hint

pub record State : Type 0 where
  pub secrets : List ℕ
  pub round : ℕ
  pub low : ℕ
  pub high : ℕ
  pub used : ℕ
  pub total : ℕ
  pub hint : Hint
  pub done : Bool

pub record View : Type 0 where
  pub round : ℕ
  pub rounds : ℕ
  pub low : ℕ
  pub high : ℕ
  pub guesses_used : ℕ
  pub guesses_left : ℤ
  pub hint : Hint
  pub solved : ℕ
  pub done : Bool

unfoldable pub start : Digest → ℕ → State
start sha256 seed = record {
  secrets = secret 0 ∷ secret 1 ∷ secret 2 ∷ [];
  round = 0;
  low = 1;
  high = ceiling;
  used = 0;
  total = 0;
  hint = no_hint;
  done = false;
}
  where
    secret : ℕ → ℕ
    secret i = derive_range sha256 seed (codes "number-guess") i 1 ceiling

unfoldable pub view : State → View
view s = record {
  round = min (s.round + 1) rounds;
  rounds = rounds;
  low = s.low;
  high = s.high;
  guesses_used = s.used;
  guesses_left = sub_ℕ budget s.used;
  hint = s.hint;
  solved = if s.done then rounds else s.round;
  done = s.done;
}

unfoldable pub advance_round : State → State
advance_round s = record s {
  round = s.round + 1;
  used = 0;
  low = 1;
  high = ceiling;
  done = if leb rounds (s.round + 1) then true else s.done;
}

-- The feedback on a wrong guess: the range that is left, and the hint.
unfoldable pub narrow : ℕ → ℕ → State → State
narrow guess secret s =
    if ltb guess secret
    then record s { hint = higher; low = max s.low (guess + 1) }
    else record s { hint = lower; high = min s.high (guess - 1) }

-- After a wrong guess: the round ends if it was the last of the budget.
unfoldable pub settle_miss : State → State × Outcome
settle_miss s =
    if leb budget s.used
    then (
      advance_round (record s { hint = out_of_guesses }),
      outcome false (leb rounds (s.round + 1)),
    )
    else (s, outcome false false)

unfoldable pub judge : State → ℕ → ℕ → State × Outcome
judge s guess secret =
    let t = record s { used = s.used + 1; total = s.total + 1 } in
    if guess == secret
    then (advance_round (record t { hint = correct }), outcome true (leb rounds (s.round + 1)))
    else settle_miss (narrow guess secret t)

abbrev pub in_range : ℤ → Bool
in_range guess = if ltb_ℤ guess (pos 1) || ltb_ℤ (pos ceiling) guess then false else true

-- One decoded move; the field `Guess` may be missing.
unfoldable pub guess_move : State → Option ℤ → Result Error (State × Outcome)
guess_move s none = err invalid_move
guess_move s (some guess) =
    if in_range guess
    then (or_fail (get_elem? s.secrets s.round) index_out_of_range >>= λ secret.
        ok (judge s (pos_part guess) secret))
    else err invalid_move

unfoldable pub move : (Bytes → Option (Option ℤ)) → State → Bytes → Result Error (State × Outcome)
move decoder s raw = if s.done then err already_done else decode_move decoder raw >>= guess_move s

-- The metric: guesses used, with the full budget for what was not played.
unfoldable pub raw_total : State → ℤ
raw_total s =
    if s.done
    then pos s.total
    else pos s.total +ℤ (sub_ℕ rounds s.round *ℤ pos budget -ℤ pos s.used)
