-- ===== src/Games/WordScramble.antt =====
-- internal/games/wordscramble.go. Texts are ASCII, as the word list is: a text is the list of its
-- bytes, and a rune is a byte. The word list is an argument, read from the text of words.txt.
pub mod Letters
pub mod Bounds
use podium.Base.{
  ℕ, zero, suc, ◌+◌, ◌-◌, ◌/◌, ◌%◌, ◌≤◌, Bool, true, false, ◌&&◌, ◌||◌, Option, none, some, List,
  [], ◌∷◌, ◌++◌, map, Result, ok, err, ◌>>=◌, ltb, leb, ◌==◌, if◌then◌else◌, length, get_or, set,
}
use mathlib.Core.List.{reverse}
use podium.Games.Common.{
  Bytes, Time, Error, invalid_move, deadline_passed, no_words, Outcome, outcome, decode_move,
}
use podium.Games.Rng.{Digest, codes, derive_intn}

-- 60 seconds, in nanoseconds.
abbrev pub duration : ℕ
duration = 60000000000

abbrev pub min_length : ℕ
min_length = 5

pub record State : Type 0 where
  pub seed : ℕ
  pub deadline : Time
  pub index : ℕ
  pub solved : ℕ
  pub skipped : ℕ

pub record View : Type 0 where
  pub scramble : List ℕ
  pub index : ℕ
  pub solved : ℕ
  pub skipped : ℕ
  pub deadline : Time
  pub duration_secs : ℕ

pub record Move : Type 0 where
  pub answer : List ℕ
  pub skip : Bool

-- strings.ToLower
unfoldable pub to_lower : List ℕ → List ℕ
to_lower = map λ c. if leb b'A' c && leb c b'Z' then c + 32 else c

abbrev pub is_space : ℕ → Bool
is_space c = c == 32 || (leb 9 c && leb c 13)

unfoldable pub trim_left : List ℕ → List ℕ
trim_left [] = []
trim_left (c ∷ cs) = if is_space c then trim_left cs else c ∷ cs

-- strings.TrimSpace
unfoldable pub trim_space : List ℕ → List ℕ
unfolding trim_left
trim_space cs = reverse (trim_left (reverse (trim_left cs)))

-- strings.Lines, without the line ends, which trimming would remove.
unfoldable pub lines_from : List ℕ → List ℕ → List (List ℕ)
lines_from line [] = line ∷ []
lines_from line (c ∷ cs) =
    let rest = lines_from [] cs in
    let longer = lines_from (line ++ c ∷ []) cs in if c == 10 then line ∷ rest else longer

unfoldable pub keep_words : List (List ℕ) → List (List ℕ)
unfolding to_lower trim_space
keep_words [] = []
keep_words (line ∷ lines) =
    let rest = keep_words lines in
    let word = to_lower (trim_space line) in
    if ltb (length word) min_length then rest else word ∷ rest

abbrev pub nonempty : List (List ℕ) → Result Error (List (List ℕ))
nonempty [] = err no_words
nonempty (w ∷ ws) = ok (w ∷ ws)

unfoldable pub load_words : List ℕ → Result Error (List (List ℕ))
unfolding lines_from keep_words
load_words file = nonempty (keep_words (lines_from [] file))

unfoldable pub word_at : Digest → List (List ℕ) → ℕ → ℕ → List ℕ
word_at sha256 words seed index =
    get_or words (derive_intn sha256 seed (codes "scramble-word") index (length words)) []

-- letters[i], letters[j] = letters[j], letters[i]
unfoldable pub swap : List ℕ → ℕ → ℕ → List ℕ
swap xs i j = set (set xs i (get_or xs j 0)) j (get_or xs i 0)

-- The label of a puzzle, "scramble:" and the index in decimal digits.
abbrev pub label : List ℕ → List ℕ
label digits = codes "scramble:" ++ digits

-- for i := n; i > 0; i--
unfoldable pub shuffle : Digest → ℕ → List ℕ → ℕ → List ℕ → List ℕ
shuffle sha256 seed name zero letters = letters
shuffle sha256 seed name (suc i) letters =
    shuffle sha256 seed name i
      (swap letters (suc i) (derive_intn sha256 seed name (suc i) (suc i + 1)))

unfoldable pub eq_text : List ℕ → List ℕ → Bool
eq_text [] [] = true
eq_text (a ∷ s) (b ∷ t) = a == b && eq_text s t
eq_text _ _ = false

-- strconv.Itoa of an index: its decimal digits.
unfoldable pub itoa_from : ℕ → ℕ → List ℕ
itoa_from zero n = []
itoa_from (suc fuel) n =
    let more = itoa_from fuel (n / 10) in
    let digit = 48 + n % 10 in if ltb n 10 then digit ∷ [] else more ++ digit ∷ []

unfoldable pub itoa : ℕ → List ℕ
unfolding itoa_from
itoa n = itoa_from (suc n) n

-- The last step: letters that give the word back have their first two swapped.
unfoldable pub turn : List ℕ → List ℕ → List ℕ
turn word letters =
    if eq_text letters word && ltb 1 (length letters) then swap letters 0 1 else letters

unfoldable pub scramble_word : Digest → List ℕ → ℕ → ℕ → List ℕ
scramble_word sha256 word seed index =
    turn word (shuffle sha256 seed (label (itoa index)) (length word - 1) word)

-- slices.Sort
unfoldable pub insert : ℕ → List ℕ → List ℕ
insert a [] = a ∷ []
insert a (b ∷ bs) = if leb a b then a ∷ b ∷ bs else b ∷ insert a bs

unfoldable pub sort : List ℕ → List ℕ
unfolding insert
sort [] = []
sort (a ∷ as') = insert a (sort as')

unfoldable pub sorted_letters : List ℕ → List ℕ
unfolding sort to_lower
sorted_letters word = sort (to_lower word)

-- list.valid[word]
unfoldable pub is_word : List (List ℕ) → List ℕ → Bool
is_word [] w = false
is_word (v ∷ vs) w = eq_text v w || is_word vs w

unfoldable pub start : ℕ → Time → State
start seed now = record {
  seed = seed;
  deadline = now + duration;
  index = 0;
  solved = 0;
  skipped = 0;
}

unfoldable pub view : Digest → List (List ℕ) → State → View
view sha256 words s = record {
  scramble = scramble_word sha256 (word_at sha256 words s.seed s.index) s.seed s.index;
  index = s.index;
  solved = s.solved;
  skipped = s.skipped;
  deadline = s.deadline;
  duration_secs = 60;
}

-- Whether an answer counts: a word of the list with exactly the letters of the target.
unfoldable pub accepts : List (List ℕ) → List ℕ → List ℕ → Bool
accepts words answer target =
    is_word words answer && eq_text (sorted_letters answer) (sorted_letters target)

-- An empty list of words is one that failed to load.
unfoldable pub judge : Digest → List (List ℕ) → State → List ℕ → Result Error (State × Outcome)
judge sha256 words s [] = err invalid_move
judge sha256 [] s (a ∷ answer) = err no_words
judge sha256 (v ∷ vs) s (a ∷ answer) =
    if accepts (v ∷ vs) (a ∷ answer) (word_at sha256 (v ∷ vs) s.seed s.index)
    then ok (record s { solved = s.solved + 1; index = s.index + 1 }, outcome true false)
    else ok (s, outcome false false)

unfoldable pub answer_move : Digest → List (List ℕ) → State → Move → Result Error (State × Outcome)
answer_move sha256 words s m =
    if m.skip
    then ok (record s { skipped = s.skipped + 1; index = s.index + 1 }, outcome false false)
    else judge sha256 words s (to_lower (trim_space m.answer))

unfoldable pub move :
    Digest
    → List (List ℕ)
    → (Bytes → Option Move)
    → State
    → Bytes
    → Time
    → Result Error (State × Outcome)
move sha256 words decoder s raw now =
    if ltb s.deadline now
    then err deadline_passed
    else decode_move decoder raw >>= answer_move sha256 words s

unfoldable pub raw_total : State → ℕ
raw_total s = s.solved
