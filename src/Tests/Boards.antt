-- ===== src/Tests/Boards.antt =====
-- A sorted set as a list of rows, and a calendar of months that last 31 days.
use podium.Base.{
  ℕ, ◌*◌, ◌/◌, ◌≡◌, refl, ◌∙◌, inl, inr, true, false, none, some, List, [], ◌∷◌, arith, ◌==◌,
  if◌then◌else◌, Bool-cases,
}
use podium.Base.Int.{ℤ, ◌+ℤ◌, ltb_ℤ, ◌≤ℤ◌}
use podium.Leaderboard.Keys.{Calendar}
use podium.Leaderboard.Redis.{SortedSets, Row, row_score, or_zero, Falls, IsRanked, IsUnique}

abbrev pub remove : ℕ → List Row → List Row
remove m [] = []
remove m ((n, s) ∷ rows) = let rest = remove m rows in if n == m then rest else (n, s) ∷ rest

abbrev pub insert : ℕ → ℤ → List Row → List Row
insert m s [] = (m, s) ∷ []
insert m s ((n, t) ∷ rows) =
    let rest = insert m s rows in if ltb_ℤ t s then (m, s) ∷ (n, t) ∷ rows else (n, t) ∷ rest

pub row_score-remove :
    (m n : ℕ) (rows : List Row)
    → row_score n (remove m rows) ≡ (if m == n then none else row_score n rows)
unfolding row_score
row_score-remove m n [] = ground arith
row_score-remove m n ((k, s) ∷ rows) = ground (arith, row_score-remove m n rows)

row_score-insert :
    (m n : ℕ) (s : ℤ) (rows : List Row)
    → row_score m rows ≡ none
    → row_score n (insert m s rows) ≡ (if m == n then some s else row_score n rows)
unfolding row_score
row_score-insert m n s [] fresh = refl
row_score-insert m n s ((k, t) ∷ rows) fresh = ground (arith, fresh, row_score-insert m n s rows)

Falls-remove : (m : ℕ) (b : ℤ) (rows : List Row) → Falls b rows → Falls b (remove m rows)
Falls-remove m b [] h = tt
Falls-remove m b ((k, t) ∷ rows) (le, h) = elim (Bool-cases (k == m)) [
  | inl hit ↦ rw hit (Falls-remove m b rows h)
  | inr miss ↦ rw miss (le, Falls-remove m b rows h)
]

Falls-le : (a b : ℤ) (rows : List Row) → a ≤ℤ b → Falls a rows → Falls b rows
Falls-le a b [] le h = tt
Falls-le a b ((k, t) ∷ rows) le (one, h) = (omega arith, Falls-le a b rows le h)

Falls-insert :
    (m : ℕ) (s b : ℤ) (rows : List Row) → s ≤ℤ b → Falls b rows → Falls b (insert m s rows)
Falls-insert m s b [] le h = (le, tt)
Falls-insert m s b ((k, t) ∷ rows) le (one, h) = elim (Bool-cases (ltb_ℤ t s)) [
  | inl more ↦ rw more (le, (one, h))
  | inr less ↦ rw less (one, Falls-insert m s b rows le h)
]

pub remove-IsRanked : (m : ℕ) (rows : List Row) → IsRanked rows → IsRanked (remove m rows)
remove-IsRanked m [] h = tt
remove-IsRanked m ((k, t) ∷ rows) (falls, h) = elim (Bool-cases (k == m)) [
  | inl hit ↦ rw hit (remove-IsRanked m rows h)
  | inr miss ↦ rw miss (Falls-remove m t rows falls, remove-IsRanked m rows h)
]

pub insert-IsRanked : (m : ℕ) (s : ℤ) (rows : List Row) → IsRanked rows → IsRanked (insert m s rows)
insert-IsRanked m s [] h = (tt, tt)
insert-IsRanked m s ((k, t) ∷ rows) (falls, h) = elim (Bool-cases (ltb_ℤ t s)) [
  | inl more ↦
      let le : t ≤ℤ s = ground arith in rw more ((le, Falls-le t s rows le falls), (falls, h))
  | inr less ↦ rw less (Falls-insert m s t rows (ground arith) falls, insert-IsRanked m s rows h)
]

pub remove-IsUnique : (m : ℕ) (rows : List Row) → IsUnique rows → IsUnique (remove m rows)
remove-IsUnique m [] h = tt
remove-IsUnique m ((k, t) ∷ rows) (fresh, h) = elim (Bool-cases (k == m)) [
  | inl hit ↦ rw hit (remove-IsUnique m rows h)
  | inr miss ↦
      let apart : (m == k) ≡ false = ground arith in
      rw miss (row_score-remove m k rows ∙ rw apart fresh, remove-IsUnique m rows h)
]

pub insert-IsUnique :
    (m : ℕ) (s : ℤ) (rows : List Row)
    → row_score m rows ≡ none
    → IsUnique rows
    → IsUnique (insert m s rows)
unfolding row_score
insert-IsUnique m s [] new h = (refl, tt)
insert-IsUnique m s ((k, t) ∷ rows) new (fresh, h) = elim (Bool-cases (k == m)) [
  | inl hit ↦ absurd (none_left hit)
  | inr miss ↦
      let apart : (m == k) ≡ false = ground arith in
      let left : row_score m rows ≡ none = later miss in
      elim (Bool-cases (ltb_ℤ t s)) [
        | inl more ↦ rw more (rw miss left, (fresh, h))
        | inr less ↦
            rw less
              (row_score-insert m k s rows left ∙ rw apart fresh, insert-IsUnique m s rows left h)
      ]
]
  where
    none_left : (k == m) ≡ true → ⊥
    none_left hit = ground (arith, new)

    later : (k == m) ≡ false → row_score m rows ≡ none
    later miss = ground (arith, new)

-- A list of rows that is ranked and has no member twice.
pub record Sorted : Type 0 where
  pub list : List Row
  pub ranked : IsRanked list
  pub unique : IsUnique list

abbrev pub added : ℕ → ℤ → Sorted → Sorted
added m s t = record {
  list = insert m s (remove m t.list);
  ranked = insert-IsRanked m s (remove m t.list) (remove-IsRanked m t.list t.ranked);
  unique =
      insert-IsUnique m s (remove m t.list) (ground (arith, row_score-remove m m t.list))
        (remove-IsUnique m t.list t.unique);
}

pub score-added :
    (m n : ℕ) (s : ℤ) (t : Sorted)
    → row_score n (added m s t).list ≡ (if m == n then some s else row_score n t.list)
score-added m n s t =
    row_score-insert m n s (remove m t.list) (ground (arith, row_score-remove m m t.list))
    ∙ ground (arith, row_score-remove m n t.list)

abbrev pub listed_sets : SortedSets
listed_sets = record {
  Set = Sorted;
  empty = record { list = []; ranked = tt; unique = tt };
  rows = λ t. t.list;
  zadd = added;
  zincrby = λ m d t. added m (or_zero (row_score m t.list) +ℤ d) t;
  rows-empty = refl;
  rows_ranked = λ t. t.ranked;
  rows_unique = λ t. t.unique;
  score-zadd = score-added;
  score-zincrby = λ m n d t. score-added m n (or_zero (row_score m t.list) +ℤ d) t;
}

abbrev pub even_months : Calendar
even_months = record {
  month = λ day. day / 31;
  first_day = λ m. m * 31;
  month_from = λ day. omega arith;
  month_until = λ day. omega arith;
  month_unique = λ m day low high. omega arith;
  month_length = λ m. omega arith;
}
