-- ===== src/Games/Memory/Bounds.antt =====
-- A memory run: the sequence a player has learned never changes under them, an answer counts
-- exactly when it is the sequence shown, and the metric is the length of the longest one.
use native.Mathlib.Nat.{suc-add}
use podium.Base.{
  ℕ, zero, suc, ◌+◌, ◌≤◌, ◌<◌, ◌≡◌, refl, ap, ◌≢◌, ◌⊎◌, inl, inr, true, false, Option, List, [],
  ◌∷◌, Result, ok, ◌>>=◌, arith, ltb, length, take, Bool-cases, unless-ok,
}
use podium.Base.Int.{ℤ, eq_int_sound, eq_int_refl}
use podium.Games.Common.{Bytes, Error, already_done, Outcome, decode_move, decoded}
use podium.Games.Rng.{Digest}
use podium.Games.Memory.{
  State, start, sequence_from, sequence, view, eq_ints, level_up, answer_move, move, raw_total,
}

sequence_from_prefix :
    (sha256 : Digest) (seed i level more : ℕ)
    → take level (sequence_from sha256 seed i (level + more)) ≡ sequence_from sha256 seed i level
unfolding sequence_from
sequence_from_prefix sha256 seed i zero more = refl
sequence_from_prefix sha256 seed i (suc level) more =
    rw (suc-add level more) (cc (sequence_from_prefix sha256 seed (i + 1) level more))

-- The sequence of a level is the beginning of the sequence of every later level.
pub sequence_prefix :
    (sha256 : Digest) (seed level more : ℕ)
    → take level (sequence sha256 seed (level + more)) ≡ sequence sha256 seed level
unfolding sequence
sequence_prefix sha256 seed level more = sequence_from_prefix sha256 seed 0 level more

eq_ints_sound : (as' bs : List ℤ) → eq_ints as' bs ≡ true → as' ≡ bs
unfolding eq_ints
eq_ints_sound [] [] e = refl
eq_ints_sound (a ∷ as') [] e = cc
eq_ints_sound [] (b ∷ bs) e = cc
eq_ints_sound (a ∷ as') (b ∷ bs) e = ground (arith, eq_int_sound a b, eq_ints_sound as' bs)

eq_ints_refl : (as' : List ℤ) → eq_ints as' as' ≡ true
unfolding eq_ints
eq_ints_refl [] = refl
eq_ints_refl (a ∷ as') = rw (eq_int_refl a) (eq_ints_refl as')

eq_ints_miss : (as' bs : List ℤ) → eq_ints as' bs ≡ false → as' ≢ bs
eq_ints_miss as' bs e p = cc (eq_ints_refl as', ap (eq_ints as') p)

pub record IsValid (s : State) : Type 0 where
  pub step : s.completed + 1 ≡ s.level
  pub top : s.completed ≤ 20
  pub below : s.done ≡ false → s.completed < 20

pub start-IsValid : (seed : ℕ) → IsValid (start seed)
unfolding start
start-IsValid seed = ground arith

-- What an accepted answer did: the right sequence completes its level, any other ends the run
-- and leaves what was completed.
abbrev pub Graded : Digest → State → State × Outcome → Type 0
Graded sha256 s r =
    ((answer : List ℤ) × (answer ≡ sequence sha256 s.seed s.level)
      × (r.1.correct ≡ true)
      × (r.0.completed ≡ s.level)
      × (r.0.level ≡ s.level + 1)
      × (r.0.done ≡ ltb 20 (s.level + 1)))
    ⊎ ((answer : List ℤ) × (answer ≢ sequence sha256 s.seed s.level)
        × (r.1.correct ≡ false)
        × (r.0.completed ≡ s.completed)
        × (r.0.level ≡ s.level)
        × (r.0.done ≡ true))

answer_move-Graded :
    (sha256 : Digest) (s : State) (answer : List ℤ) {r : State × Outcome}
    → s.done ≡ false
    → answer_move sha256 s answer ≡ ok r
    → Graded sha256 s r
unfolding answer_move level_up
answer_move-Graded sha256 s [] open_ e = cc
answer_move-Graded sha256 s (a ∷ answer) {r} open_ e =
    elim (Bool-cases (eq_ints (a ∷ answer) (sequence sha256 s.seed s.level))) [
      | inl hit ↦ inl (
        a ∷ answer,
        eq_ints_sound _ _ hit,
        ground arith,
        ground arith,
        ground arith,
        ground arith,
      )
      | inr miss ↦ inr (
        a ∷ answer,
        eq_ints_miss _ _ miss,
        ground arith,
        ground arith,
        ground arith,
        ground arith,
      )
    ]

-- An accepted move is graded as above, against the answer that its JSON holds.
pub move-Graded :
    (sha256 : Digest) (decoder : Bytes → Option (List ℤ)) (s : State) (raw : Bytes)
    {r : State × Outcome}
    → move sha256 decoder s raw ≡ ok r
    → (s.done ≡ false) × Graded sha256 s r
unfolding move
move-Graded sha256 decoder s raw e =
    let (open_, rest) =
      unless-ok s.done already_done (decode_move decoder raw >>= answer_move sha256 s) e in
    let (answer, _, graded) = decoded decoder raw (answer_move sha256 s) rest in
    (open_, answer_move-Graded sha256 s answer open_ graded)

Graded-IsValid :
    (sha256 : Digest) (s : State) (r : State × Outcome)
    → IsValid s
    → s.done ≡ false
    → Graded sha256 s r
    → IsValid r.0
Graded-IsValid sha256 s r v open_ (inl g) = ground (arith, g.3, g.4, g.5)
Graded-IsValid sha256 s r v open_ (inr g) = ground (arith, g.3, g.4, g.5)

-- Accepted moves keep the completed length one below the level and within 20, and an open run has
-- a level left to play.
pub memory_move-IsValid :
    (sha256 : Digest) (decoder : Bytes → Option (List ℤ)) (s : State) (raw : Bytes)
    {r : State × Outcome}
    → IsValid s
    → move sha256 decoder s raw ≡ ok r
    → IsValid r.0
memory_move-IsValid sha256 decoder s raw {r} v e =
    let (open_, graded) = move-Graded sha256 decoder s raw e in
    Graded-IsValid sha256 s r v open_ graded

length-sequence_from :
    (sha256 : Digest) (seed i count : ℕ) → length (sequence_from sha256 seed i count) ≡ count
unfolding sequence_from
length-sequence_from sha256 seed i zero = refl
length-sequence_from sha256 seed i (suc count) =
    ap suc (length-sequence_from sha256 seed (i + 1) count)

answer_right :
    (sha256 : Digest) (s : State) (answer : List ℤ)
    → answer ≡ sequence sha256 s.seed s.level
    → 0 < length answer
    → answer_move sha256 s answer ≡ ok (level_up s)
unfolding answer_move
answer_right sha256 s [] e h = elim h [ ]
answer_right sha256 s (a ∷ answer) e h =
    ground (arith, eq_ints_refl (a ∷ answer), ap (eq_ints (a ∷ answer)) e)

view-sequence :
    (sha256 : Digest) (s : State)
    → s.done ≡ false
    → (view sha256 s).sequence ≡ sequence sha256 s.seed s.level
unfolding view
view-sequence sha256 s open_ = ground arith

level_up_lem :
    (s : State)
    → IsValid s
    → s.done ≡ false
    → IsValid (level_up s).0
      × ((level_up s).0.completed ≡ s.completed + 1)
      × ((level_up s).0.done ≡ ltb 19 (s.completed + 1))
unfolding level_up
level_up_lem s v open_ = ground arith

-- The run in which every answer is the sequence that the view shows.
unfoldable pub repeat_all : Digest → ℕ → State → Result Error State
repeat_all sha256 zero s = ok s
repeat_all sha256 (suc n) s =
    answer_move sha256 s (view sha256 s).sequence >>= λ r. repeat_all sha256 n r.0

repeat_step :
    (sha256 : Digest) (s : State)
    → IsValid s
    → s.done ≡ false
    → answer_move sha256 s (view sha256 s).sequence ≡ ok (level_up s)
unfolding sequence
repeat_step sha256 s v open_ = rw (view-sequence sha256 s open_) (
    answer_right sha256 s (sequence sha256 s.seed s.level) refl
      (omega (arith, length-sequence_from sha256 s.seed 0 s.level, v.step)))

-- A player who repeats what the view shows from an open state completes one level with each
-- answer, up to the twentieth, and the run is over exactly when twenty are completed.
pub repeat_all_completes :
    (sha256 : Digest) (n : ℕ) (s : State)
    → IsValid s
    → s.done ≡ false
    → s.completed + n ≤ 20
    → (t : State) × (repeat_all sha256 n s ≡ ok t)
      × (raw_total t ≡ raw_total s + n)
      × (t.done ≡ ltb 19 (s.completed + n))
unfolding repeat_all raw_total
repeat_all_completes sha256 zero s v open_ h = (s, refl, omega arith, ground (arith, v.below))
repeat_all_completes sha256 (suc zero) s v open_ h =
    let (valid, more, over) = level_up_lem s v open_ in
    ((level_up s).0, rw (repeat_step sha256 s v open_), more, over)
repeat_all_completes sha256 (suc (suc n)) s v open_ h =
    let (valid, more, over) = level_up_lem s v open_ in
    let (t, run, total, last) =
      repeat_all_completes sha256 (suc n) (level_up s).0 valid (ground (arith, over))
        (omega (arith, more)) in
    (t, rw (repeat_step sha256 s v open_) run, omega (arith, more), ground (arith, last, more))
