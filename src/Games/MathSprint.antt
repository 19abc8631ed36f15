-- ===== src/Games/MathSprint.antt =====
-- internal/games/mathsprint.go.
pub mod Bounds
use podium.Base.{
  ℕ, zero, suc, ◌+◌, ◌-◌, ◌*◌, ◌≡◌, Bool, true, false, Option, none, some, Result, ok, err, ◌>>=◌,
  ltb, ◌==◌, if◌then◌else◌,
}
use podium.Base.Int.{ℤ, pos, sub_ℕ, eq_int}
use podium.Games.Common.{
  Bytes, Time, Error, invalid_move, deadline_passed, Outcome, outcome, decode_move,
}
use podium.Games.Rng.{Digest, codes, derive_intn, derive_range}

-- 30 seconds, in nanoseconds.
abbrev pub duration : ℕ
duration = 30000000000

pub record State : Type 0 where
  pub seed : ℕ
  pub deadline : Time
  pub index : ℕ
  pub correct : ℕ
  pub wrong : ℕ

-- The three forms of a question; its text is the operands with the sign between them.
pub data Question : Type 0 where
  plus minus times : ℕ → ℕ → Question

pub record Problem : Type 0 where
  pub question : Question
  pub answer : ℤ

pub record View : Type 0 where
  pub question : Question
  pub index : ℕ
  pub correct : ℕ
  pub wrong : ℕ
  pub deadline : Time
  pub duration_secs : ℕ

-- The operands of one kind of problem.
abbrev operand : Digest → ℕ → ℕ → ℕ → ℕ → ℕ
operand sha256 seed index low high = derive_range sha256 seed (codes "math-a") index low high

abbrev operand_b : Digest → ℕ → ℕ → ℕ → ℕ → ℕ
operand_b sha256 seed index low high = derive_range sha256 seed (codes "math-b") index low high

unfoldable pub problem_at : Digest → ℕ → ℕ → Problem
problem_at sha256 seed index =
    let op = derive_intn sha256 seed (codes "math-op") index 3 in
    if op == 0
    then (let a = operand sha256 seed index 12 99 in
        let b = operand_b sha256 seed index 12 99 in
        record { question = plus a b; answer = pos (a + b) })
    else if op == 1
    then (let a = operand sha256 seed index 30 99 in
        let b = operand_b sha256 seed index 2 29 in
        record { question = minus a b; answer = sub_ℕ a b })
    else (let a = operand sha256 seed index 2 12 in
        let b = operand_b sha256 seed index 2 12 in
        record { question = times a b; answer = pos (a * b) })

unfoldable pub start : ℕ → Time → State
start seed now = record {
  seed = seed;
  deadline = now + duration;
  index = 0;
  correct = 0;
  wrong = 0;
}

unfoldable pub view : Digest → State → View
view sha256 s = record {
  question = (problem_at sha256 s.seed s.index).question;
  index = s.index;
  correct = s.correct;
  wrong = s.wrong;
  deadline = s.deadline;
  duration_secs = 30;
}

unfoldable pub mark : State → Bool → State × Outcome
mark s correct = (
  record s {
    correct = if correct then s.correct + 1 else s.correct;
    wrong = if correct then s.wrong else s.wrong + 1;
    index = s.index + 1;
  },
  outcome correct false,
)

-- One decoded move; the field `Answer` may be missing.
unfoldable pub answer_move : Digest → State → Option ℤ → Result Error (State × Outcome)
answer_move sha256 s none = err invalid_move
answer_move sha256 s (some answer) =
    ok (mark s (eq_int answer (problem_at sha256 s.seed s.index).answer))

unfoldable pub move :
    Digest → (Bytes → Option (Option ℤ)) → State → Bytes → Time → Result Error (State × Outcome)
move sha256 decoder s raw now =
    if ltb s.deadline now
    then err deadline_passed
    else decode_move decoder raw >>= answer_move sha256 s

unfoldable pub raw_total : State → ℕ
raw_total s = s.correct
