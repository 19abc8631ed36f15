-- ===== src/Games/WordScramble/Bounds.antt =====
-- A word scramble session: which answers count, and what each move does to the counters.
use podium.Base.{
  ℕ, ◌+◌, ◌≤◌, ◌≡◌, sym, ap, ◌∙◌, ◌⊎◌, inl, inr, true, false, ◌≢◌, some, refl, Option, List, [],
  ◌∷◌, ok, ◌>>=◌, arith, ltb, Bool-cases, unless-ok,
}
use podium.Games.Common.{Bytes, Time, deadline_passed, Outcome, decode_move, decoded}
use podium.Games.Rng.{Digest}
use podium.Games.WordScramble.{
  State, Move, sort, sorted_letters, to_lower, trim_space, is_word, word_at, accepts, judge,
  answer_move, move, eq_text,
}
use podium.Games.WordScramble.Letters.{
  count, SameLetters, sort-SameLetters, eq_text_sound, eq_text_refl,
}

-- A word of the list.
abbrev pub Listed : List (List ℕ) → List ℕ → Type 0
Listed [] w = ⊥
Listed (v ∷ vs) w = (v ≡ w) ⊎ Listed vs w

is_word-Listed : (words : List (List ℕ)) (w : List ℕ) → is_word words w ≡ true → Listed words w
unfolding is_word
is_word-Listed [] w e = cc
is_word-Listed (v ∷ vs) w e = elim (Bool-cases (eq_text v w)) [
  | inl hit ↦ inl (eq_text_sound v w hit)
  | inr miss ↦ inr (is_word-Listed vs w (ground arith))
]

sorted_letters-SameLetters :
    (s t : List ℕ)
    → eq_text (sorted_letters s) (sorted_letters t) ≡ true
    → SameLetters (to_lower s) (to_lower t)
unfolding sorted_letters
sorted_letters-SameLetters s t e a =
    sym (sort-SameLetters (to_lower s) a)
    ∙ ap (count a) (eq_text_sound (sort (to_lower s)) (sort (to_lower t)) e)
    ∙ sort-SameLetters (to_lower t) a

-- A word of the list is found.
Listed-is_word : (words : List (List ℕ)) (w : List ℕ) → Listed words w → is_word words w ≡ true
unfolding is_word
Listed-is_word [] w h = absurd h
Listed-is_word (v ∷ vs) w (inl same) =
    (let hit : eq_text v w ≡ true = rw same (eq_text_refl w) in rw hit refl)
Listed-is_word (v ∷ vs) w (inr h) = (let later = Listed-is_word vs w h in ground arith)

-- What judging an answer did: it solved the word with a listed word that has the letters of the
-- target, or it left the state alone, for an answer that is not listed or has other letters when
-- sorted.
abbrev pub Judged : Digest → List (List ℕ) → State → List ℕ → State × Outcome → Type 0
Judged sha256 words s answer r =
    (Listed words answer
      × SameLetters (to_lower answer) (to_lower (word_at sha256 words s.seed s.index))
      × (r.0 ≡ record s { solved = s.solved + 1; index = s.index + 1 }))
    ⊎ (((¬ Listed words answer)
          ⊎ (sorted_letters answer ≢ sorted_letters (word_at sha256 words s.seed s.index)))
        × (r.0 ≡ s))

-- What an accepted move did: it skipped a word where it said so, and otherwise its answer, in small
-- letters and without the space around it, was judged.
abbrev pub Played : Digest → List (List ℕ) → State → Move → State × Outcome → Type 0
Played sha256 words s m r =
    ((m.skip ≡ true) × (r.0 ≡ record s { skipped = s.skipped + 1; index = s.index + 1 }))
    ⊎ ((m.skip ≡ false) × Judged sha256 words s (to_lower (trim_space m.answer)) r)

refused_for :
    (words : List (List ℕ)) (answer target : List ℕ)
    → accepts words answer target ≡ false
    → (¬ Listed words answer) ⊎ (sorted_letters answer ≢ sorted_letters target)
unfolding accepts
refused_for words answer target e = elim (Bool-cases (is_word words answer)) [
  | inr out ↦ inl (λ h. (let found = Listed-is_word words answer h in cc (found, out)))
  | inl found ↦ inr (λ same.
      (let equal : eq_text (sorted_letters answer) (sorted_letters target) ≡ true =
          rw same (eq_text_refl (sorted_letters target)) in
        ground arith))
]

judge-Judged :
    (sha256 : Digest) (words : List (List ℕ)) (s : State) (answer : List ℕ) {r : State × Outcome}
    → judge sha256 words s answer ≡ ok r
    → Judged sha256 words s answer r
unfolding judge accepts
judge-Judged sha256 words s [] e = cc
judge-Judged sha256 [] s (a ∷ answer) e = cc
judge-Judged sha256 (v ∷ vs) s (a ∷ answer) {r} e =
    let words = v ∷ vs in
    elim (Bool-cases (accepts words (a ∷ answer) (word_at sha256 words s.seed s.index))) [
      | inl hit ↦ inl (
        is_word-Listed words (a ∷ answer) (ground arith),
        sorted_letters-SameLetters (a ∷ answer) (word_at sha256 words s.seed s.index)
            (ground arith),
        ground arith,
      )
      | inr miss ↦
          inr (
            refused_for words (a ∷ answer) (word_at sha256 words s.seed s.index) miss,
            ground arith,
          )
    ]

answer_move-Played :
    (sha256 : Digest) (words : List (List ℕ)) (s : State) (m : Move) {r : State × Outcome}
    → answer_move sha256 words s m ≡ ok r
    → Played sha256 words s m r
unfolding answer_move
answer_move-Played sha256 words s m {r} e = elim (Bool-cases m.skip) [
  | inl skip ↦ inl (skip, ground arith)
  | inr stay ↦
      inr
        (stay, judge-Judged sha256 words s (to_lower (trim_space m.answer)) {r = r} (ground arith))
]

-- A move is only accepted by the deadline, and what it decodes to says what it did: skip the word
-- where it asks for it, or have its answer judged, in small letters and without the space around it.
-- The word counts as solved for a listed word with the letters of the target, each as often, and
-- nothing changes for an answer that is not listed or whose sorted letters are others.
pub move-Played :
    (sha256 : Digest) (words : List (List ℕ)) (decoder : Bytes → Option Move) (s : State)
    (raw : Bytes) (now : Time) {r : State × Outcome}
    → move sha256 words decoder s raw now ≡ ok r
    → (now ≤ s.deadline) × ((m : Move) × (decoder raw ≡ some m) × Played sha256 words s m r)
unfolding move
move-Played sha256 words decoder s raw now e =
    let (early, rest) =
      unless-ok (ltb s.deadline now) deadline_passed
        (decode_move decoder raw >>= answer_move sha256 words s) e in
    let (m, is, played) = decoded decoder raw (answer_move sha256 words s) rest in
    (ground arith, (m, is, answer_move-Played sha256 words s m played))
