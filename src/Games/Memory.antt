-- ===== src/Games/Memory.antt =====
-- internal/games/memory.go. The numbers of an answer are any Go ints.
pub mod Bounds
use podium.Base.{
  ℕ, zero, suc, ◌+◌, Bool, true, false, ◌&&◌, Option, none, some, List, [], ◌∷◌, Result, ok, err,
  ◌>>=◌, ltb, ◌==◌, if◌then◌else◌,
}
use podium.Base.Int.{ℤ, pos, eq_int}
use podium.Games.Common.{Bytes, Error, invalid_move, already_done, Outcome, outcome, decode_move}
use podium.Games.Rng.{Digest, codes, derive_intn}

abbrev pub symbols : ℕ
symbols = 4

abbrev pub max_level : ℕ
max_level = 20

pub record State : Type 0 where
  pub seed : ℕ
  pub level : ℕ
  pub completed : ℕ
  pub done : Bool

-- `sequence` is nil once the run is over.
pub record View : Type 0 where
  pub level : ℕ
  pub sequence : List ℤ
  pub symbols : ℕ
  pub completed : ℕ
  pub done : Bool

unfoldable pub start : ℕ → State
start seed = record { seed = seed; level = 1; completed = 0; done = false }

-- The entries of the sequence from place i on, `count` of them.
unfoldable pub sequence_from : Digest → ℕ → ℕ → ℕ → List ℤ
sequence_from sha256 seed i zero = []
sequence_from sha256 seed i (suc count) =
    pos (derive_intn sha256 seed (codes "memory") i symbols + 1)
    ∷ sequence_from sha256 seed (i + 1) count

unfoldable pub sequence : Digest → ℕ → ℕ → List ℤ
unfolding sequence_from
sequence sha256 seed level = sequence_from sha256 seed 0 level

unfoldable pub view : Digest → State → View
view sha256 s = record {
  level = s.level;
  sequence = if s.done then [] else sequence sha256 s.seed s.level;
  symbols = symbols;
  completed = s.completed;
  done = s.done;
}

-- slices.Equal
unfoldable pub eq_ints : List ℤ → List ℤ → Bool
eq_ints [] [] = true
eq_ints (a ∷ as') (b ∷ bs) = eq_int a b && eq_ints as' bs
eq_ints _ _ = false

-- After a right answer: one level up, and the end of the run past the last level.
unfoldable pub level_up : State → State × Outcome
level_up s =
    let t = record s { completed = s.level; level = s.level + 1 } in
    if ltb max_level (s.level + 1)
    then (record t { done = true }, outcome true true)
    else (t, outcome true false)

unfoldable pub answer_move : Digest → State → List ℤ → Result Error (State × Outcome)
answer_move sha256 s [] = err invalid_move
answer_move sha256 s (a ∷ answer) =
    if eq_ints (a ∷ answer) (sequence sha256 s.seed s.level)
    then ok (level_up s)
    else ok (record s { done = true }, outcome false true)

unfoldable pub move :
    Digest → (Bytes → Option (List ℤ)) → State → Bytes → Result Error (State × Outcome)
move sha256 decoder s raw =
    if s.done then err already_done else decode_move decoder raw >>= answer_move sha256 s

unfoldable pub raw_total : State → ℕ
raw_total s = s.completed
