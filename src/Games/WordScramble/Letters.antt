-- ===== src/Games/WordScramble/Letters.antt =====
-- The letters of a text, counted: swapping, shuffling and sorting keep every count.
use podium.Base.{
  ℕ, zero, suc, ◌+◌, ◌-◌, ◌≤◌, ◌<◌, ◌≡◌, refl, sym, ap, ◌∙◌, ◌≢◌, inl, inr, true, false, ◌&&◌, List,
  [], ◌∷◌, arith, ◌==◌, ltb, if◌then◌else◌, length, get_or, set, Bool-cases, length-set,
}
use podium.Games.Rng.{Digest, derive_intn, derive_intn-lt}
use podium.Games.WordScramble.{
  swap, shuffle, turn, scramble_word, eq_text, insert, sort, label, itoa,
}

-- How often a letter occurs.
abbrev pub count : ℕ → List ℕ → ℕ
count a [] = 0
count a (x ∷ xs) = (if x == a then 1 else 0) + count a xs

-- Two texts with the same letters, each as often.
abbrev pub SameLetters : List ℕ → List ℕ → Type 0
SameLetters xs ys = (a : ℕ) → count a xs ≡ count a ys

abbrev one : ℕ → ℕ → ℕ
one x a = if x == a then 1 else 0

count-set :
    (a : ℕ) (xs : List ℕ) (i v : ℕ)
    → i < length xs
    → count a (set xs i v) + one (get_or xs i 0) a ≡ count a xs + one v a
count-set a [] i v h = elim h [ ]
count-set a (x ∷ xs) zero v h = omega arith
count-set a (x ∷ xs) (suc i) v h = omega (arith, count-set a xs i v (omega arith))

get_or-set_self : (xs : List ℕ) (i v : ℕ) → i < length xs → get_or (set xs i v) i 0 ≡ v
get_or-set_self [] i v h = elim h [ ]
get_or-set_self (x ∷ xs) zero v h = refl
get_or-set_self (x ∷ xs) (suc i) v h = get_or-set_self xs i v (omega arith)

get_or-set_ne : (xs : List ℕ) (i j v : ℕ) → i ≢ j → get_or (set xs i v) j 0 ≡ get_or xs j 0
get_or-set_ne [] i j v h = refl
get_or-set_ne (x ∷ xs) zero zero v h = absurd (h refl)
get_or-set_ne (x ∷ xs) zero (suc j) v h = refl
get_or-set_ne (x ∷ xs) (suc i) zero v h = refl
get_or-set_ne (x ∷ xs) (suc i) (suc j) v h = get_or-set_ne xs i j v (λ e. h (ap suc e))

length-swap : (xs : List ℕ) (i j : ℕ) → length (swap xs i j) ≡ length xs
unfolding swap
length-swap xs i j =
    length-set (set xs i (get_or xs j 0)) j (get_or xs i 0) ∙ length-set xs i (get_or xs j 0)

-- The letter found at j once i has the letter of j is that letter.
get_or-set_same :
    (xs : List ℕ) (i j : ℕ) → i < length xs → get_or (set xs i (get_or xs j 0)) j 0 ≡ get_or xs j 0
get_or-set_same xs i j h = elim (Bool-cases (i == j)) [
  | inl same ↦ let e : i ≡ j = ground arith in rw (← e) (get_or-set_self xs i (get_or xs i 0) h)
  | inr apart ↦ get_or-set_ne xs i j (get_or xs j 0) (ground arith)
]

swap-SameLetters :
    (xs : List ℕ) (i j : ℕ) → i < length xs → j < length xs → SameLetters (swap xs i j) xs
unfolding swap
swap-SameLetters xs i j h k a = omega (
  arith,
  count-set a xs i (get_or xs j 0) h,
  count-set a (set xs i (get_or xs j 0)) j (get_or xs i 0)
      (omega (arith, length-set xs i (get_or xs j 0))),
  ap (λ x. one x a) (get_or-set_same xs i j h),
)

length-shuffle :
    (sha256 : Digest) (seed : ℕ) (name : List ℕ) (i : ℕ) (xs : List ℕ)
    → length (shuffle sha256 seed name i xs) ≡ length xs
unfolding shuffle
length-shuffle sha256 seed name zero xs = refl
length-shuffle sha256 seed name (suc i) xs =
    let j = derive_intn sha256 seed name (suc i) (suc i + 1) in
    length-shuffle sha256 seed name i (swap xs (suc i) j) ∙ length-swap xs (suc i) j

shuffle-SameLetters :
    (sha256 : Digest) (seed : ℕ) (name : List ℕ) (i : ℕ) (xs : List ℕ)
    → i ≤ length xs - 1
    → SameLetters (shuffle sha256 seed name i xs) xs
unfolding shuffle
shuffle-SameLetters sha256 seed name zero xs h a = refl
shuffle-SameLetters sha256 seed name (suc i) xs h a =
    let j = derive_intn sha256 seed name (suc i) (suc i + 1) in
    let small = derive_intn-lt sha256 seed name (suc i) (suc i + 1) (omega arith) in
    shuffle-SameLetters sha256 seed name i (swap xs (suc i) j)
      (omega (arith, length-swap xs (suc i) j)) a
    ∙ swap-SameLetters xs (suc i) j (omega arith) (omega arith) a

turn-SameLetters : (word letters : List ℕ) → SameLetters (turn word letters) letters
unfolding turn
turn-SameLetters word letters a =
    elim (Bool-cases (eq_text letters word && ltb 1 (length letters))) [
      | inl e ↦ rw e (swap-SameLetters letters 0 1 (ground arith) (ground arith) a)
      | inr e ↦ rw e
    ]

-- Every puzzle is an anagram of its word.
pub scramble_word-SameLetters :
    (sha256 : Digest) (word : List ℕ) (seed index : ℕ)
    → SameLetters (scramble_word sha256 word seed index) word
unfolding scramble_word
scramble_word-SameLetters sha256 word seed index a =
    turn-SameLetters word _ a
    ∙ shuffle-SameLetters sha256 seed (label (itoa index)) (length word - 1) word (omega arith) a

pub eq_text_sound : (s t : List ℕ) → eq_text s t ≡ true → s ≡ t
unfolding eq_text
eq_text_sound [] [] e = refl
eq_text_sound (a ∷ s) [] e = cc
eq_text_sound [] (b ∷ t) e = cc
eq_text_sound (a ∷ s) (b ∷ t) e = ground (arith, eq_text_sound s t)

pub eq_text_refl : (s : List ℕ) → eq_text s s ≡ true
unfolding eq_text
eq_text_refl [] = refl
eq_text_refl (a ∷ s) = ground (arith, eq_text_refl s)

-- The first two letters of a word, with the rest of it, differ.
abbrev pub Uneven : List ℕ → Type 0
Uneven [] = ⊥
Uneven (x ∷ []) = ⊥
Uneven (x ∷ y ∷ rest) = x ≢ y

swap_front : (xs : List ℕ) → Uneven xs → swap xs 0 1 ≢ xs
unfolding swap
swap_front [] u e = u
swap_front (x ∷ []) u e = u
swap_front (x ∷ y ∷ rest) u e = u (cc)

turn_ne_self : (word : List ℕ) → Uneven word → turn word word ≢ word
unfolding turn
turn_ne_self [] u e = u
turn_ne_self (x ∷ []) u e = u
turn_ne_self (x ∷ y ∷ rest) u e =
    swap_front (x ∷ y ∷ rest) u (ground (arith, eq_text_refl (x ∷ y ∷ rest)))

turn_away : (word letters : List ℕ) → eq_text letters word ≡ false → turn word letters ≡ letters
unfolding turn
turn_away word letters e = ground arith

different : (s t : List ℕ) → eq_text s t ≡ false → s ≢ t
different s t e same = cc (eq_text_refl t, ap (λ r. eq_text r t) same)

turn_ne : (word letters : List ℕ) → Uneven word → turn word letters ≢ word
turn_ne word letters u e = elim (Bool-cases (eq_text letters word)) [
  | inl back ↦
      let same = eq_text_sound letters word back in
      turn_ne_self word u (ap (turn word) (sym same) ∙ e)
  | inr away ↦ different letters word away (sym (turn_away word letters away) ∙ e)
]

-- The puzzle is never the word itself, for a word whose first two letters differ (as they do in
-- every word of the list): a shuffle that gives the word back is turned.
pub scramble_word_ne :
    (sha256 : Digest) (word : List ℕ) (seed index : ℕ)
    → Uneven word
    → scramble_word sha256 word seed index ≢ word
unfolding scramble_word
scramble_word_ne sha256 word seed index u = turn_ne word _ u

count-insert : (a x : ℕ) (xs : List ℕ) → count a (insert x xs) ≡ one x a + count a xs
unfolding insert
count-insert a x [] = refl
count-insert a x (y ∷ ys) = ground (arith, count-insert a x ys)

-- Sorting keeps the letters.
pub sort-SameLetters : (xs : List ℕ) → SameLetters (sort xs) xs
unfolding sort
sort-SameLetters [] a = refl
sort-SameLetters (x ∷ xs) a = omega (arith, count-insert a x (sort xs), sort-SameLetters xs a)
