-- ===== src/Games/MathSprint/Bounds.antt =====
-- A math sprint: every problem is mental arithmetic on small positive numbers, and the metric is
-- the number of accepted moves that gave the answer of their problem in time.
use podium.Base.{
  ℕ, suc, ◌+◌, ◌*◌, ◌≤◌, ◌≡◌, refl, ap, ◌∙◌, ◌↔◌, true, Option, none, some, List, [], ◌∷◌, Result,
  ok, err, ◌>>=◌, arith, ltb, if◌then◌else◌, unless-ok,
}
use podium.Base.Int.{ℤ, pos, sub_ℕ, ◌≤ℤ◌, eq_int, eq_int_sound, eq_int_refl}
use podium.Games.Common.{Bytes, Time, Error, deadline_passed, Outcome, decode_move, decoded}
use podium.Games.Rng.{Digest, codes, derive_range, derive_range_low, derive_range_high}
use podium.Games.MathSprint.{
  State, Question, plus, minus, times, problem_at, mark, answer_move, move,
}

-- The value of a question, worked out on the integers.
abbrev pub value : Question → ℤ
value (plus a b) = pos (a + b)
value (minus a b) = sub_ℕ a b
value (times a b) = pos (a * b)

mul_range : (a b : ℕ) → 2 ≤ a → a ≤ 12 → 2 ≤ b → b ≤ 12 → (1 ≤ a * b) × (a * b ≤ 144)
mul_range a b h k l m = grind arith

-- The stored answer of every problem is the value of its question, and lies between 1 and 198:
-- no difference is zero or negative.
pub problem_at_range :
    (sha256 : Digest) (seed index : ℕ)
    → let p = problem_at sha256 seed index in
      (p.answer ≡ value p.question) × (pos 1 ≤ℤ p.answer) × (p.answer ≤ℤ pos 198)
unfolding problem_at
problem_at_range sha256 seed index = ground (
  arith,
  within (codes "math-a") 12 99,
  within (codes "math-b") 12 99,
  within (codes "math-a") 30 99,
  within (codes "math-b") 2 29,
  within (codes "math-a") 2 12,
  within (codes "math-b") 2 12,
  mul_range (number (codes "math-a") 2 12) (number (codes "math-b") 2 12),
)
  where
    number : List ℕ → ℕ → ℕ → ℕ
    number label low high = derive_range sha256 seed label index low high

    within :
        (label : List ℕ) (low high : ℕ)
        → (low ≤ number label low high) × (low ≤ high → number label low high ≤ high)
    within label low high = (
      derive_range_low sha256 seed label index low high,
      derive_range_high sha256 seed label index low high,
    )

-- What an accepted move did: it came by the deadline, and its answer was marked right exactly
-- when it is the value of the question shown.
abbrev pub Marked : Digest → State → Time → State × Outcome → Type 0
Marked sha256 s now r =
    (answer : ℤ) × (now ≤ s.deadline)
    × ((r.1.correct ≡ true) ↔ (answer ≡ (problem_at sha256 s.seed s.index).answer))
    × (r.0 ≡ (mark s r.1.correct).0)

answer_move-Marked :
    (sha256 : Digest) (s : State) (now : Time) (m : Option ℤ) {r : State × Outcome}
    → now ≤ s.deadline
    → answer_move sha256 s m ≡ ok r
    → Marked sha256 s now r
unfolding answer_move mark
answer_move-Marked sha256 s now none h e = cc
answer_move-Marked sha256 s now (some answer) {r} h e =
    let target = (problem_at sha256 s.seed s.index).answer in
    (
      answer,
      h,
      (
        λ right. eq_int_sound answer target (ground (arith)),
        λ same. ground (arith, eq_int_refl answer, ap (eq_int answer) same),
      ),
      ground arith,
    )

pub move-Marked :
    (sha256 : Digest) (decoder : Bytes → Option (Option ℤ)) (s : State) (raw : Bytes) (now : Time)
    {r : State × Outcome}
    → move sha256 decoder s raw now ≡ ok r
    → Marked sha256 s now r
unfolding move
move-Marked sha256 decoder s raw now e =
    let (early, rest) =
      unless-ok (ltb s.deadline now) deadline_passed
        (decode_move decoder raw >>= answer_move sha256 s) e in
    let (m, _, marked) = decoded decoder raw (answer_move sha256 s) rest in
    answer_move-Marked sha256 s now m (ground arith) marked

-- The state that the caller keeps: the old one where the move was refused.
abbrev pub after : State → Result Error (State × Outcome) → State
after s (ok r) = r.0
after s (err e) = s

-- A session: moves with their times, one after the other; one that is refused changes nothing.
unfoldable pub play : Digest → (Bytes → Option (Option ℤ)) → State → List (Bytes × Time) → State
play sha256 decoder s [] = s
play sha256 decoder s ((raw, now) ∷ moves) =
    play sha256 decoder (after s (move sha256 decoder s raw now)) moves

abbrev pub in_time : Time → List (Bytes × Time) → ℕ
in_time deadline [] = 0
in_time deadline ((raw, now) ∷ moves) =
    if ltb deadline now then in_time deadline moves else suc (in_time deadline moves)

abbrev pub Accounted : Time → ℕ → State → State → Type 0
Accounted deadline n s t =
    (t.correct + t.wrong ≡ t.index)
    × (t.deadline ≡ deadline)
    × (t.correct ≤ s.correct + n)
    × (t.index ≤ s.index + n)

-- One move of a session, accepted or not.
after_move :
    (sha256 : Digest) (decoder : Bytes → Option (Option ℤ)) (s : State) (raw : Bytes) (now : Time)
    (m : Result Error (State × Outcome))
    → move sha256 decoder s raw now ≡ m
    → s.correct + s.wrong ≡ s.index
    → Accounted s.deadline (if ltb s.deadline now then 0 else 1) s (after s m)
unfolding mark
after_move sha256 decoder s raw now (err e) eq h = ground arith
after_move sha256 decoder s raw now (ok r) eq h =
    let (answer, early, _, same) = move-Marked sha256 decoder s raw now eq in
    rw same (ground (arith, early))

-- Whatever is sent, the right and wrong answers add up to the problems passed, and those are at
-- most the moves that came by the deadline, which never moves; so is the metric.
pub play_accounts :
    (sha256 : Digest) (decoder : Bytes → Option (Option ℤ)) (deadline : Time) (s : State)
    (moves : List (Bytes × Time))
    → s.deadline ≡ deadline
    → s.correct + s.wrong ≡ s.index
    → Accounted deadline (in_time deadline moves) s (play sha256 decoder s moves)
unfolding play
play_accounts sha256 decoder d s [] same h = (h, same, omega arith, omega arith)
play_accounts sha256 decoder d s ((raw, now) ∷ moves) same h =
    let m = move sha256 decoder s raw now in
    let (sum, kept, c, i) = after_move sha256 decoder s raw now m refl h in
    let (sum', kept', c', i') =
      play_accounts sha256 decoder d (after s m) moves (kept ∙ same) sum in
    (sum', kept', ground (arith, c, c', same), ground (arith, i, i', same))
