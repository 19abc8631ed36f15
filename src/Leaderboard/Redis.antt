-- ===== src/Leaderboard/Redis.antt =====
-- The sorted sets and keys of Redis that internal/leaderboard relies on. A set is a parameter: it
-- shows the rows that ZREVRANGE lists, the highest score first, and the commands are known by what
-- they do to those rows. A member is a user's id, of which Redis holds the decimal digits.
use podium.Base.{
  Bool, false, leb, ℕ, ◌+◌, ◌≡◌, Option, none, some, List, [], ◌∷◌, ◌==◌, if◌then◌else◌,
}
use podium.Base.Int.{ℤ, pos, ltb_ℤ, ◌+ℤ◌, ◌≤ℤ◌}
use podium.Leaderboard.Keys.{Key, eq_key}

abbrev pub Row : Type 0
Row = ℕ × ℤ

-- ZSCORE, on the rows.
unfoldable pub row_score : ℕ → List Row → Option ℤ
row_score m [] = none
row_score m ((n, s) ∷ rows) = if n == m then some s else row_score m rows

abbrev pub or_zero : Option ℤ → ℤ
or_zero none = pos 0
or_zero (some s) = s

-- Rows that score at most s.
abbrev pub Falls : ℤ → List Row → Type 0
Falls s [] = Unit {0}
Falls s ((n, t) ∷ rows) = (t ≤ℤ s) × Falls s rows

-- No row scores more than one before it.
abbrev pub IsRanked : List Row → Type 0
IsRanked [] = Unit {0}
IsRanked ((n, s) ∷ rows) = Falls s rows × IsRanked rows

-- No member has two rows.
abbrev pub IsUnique : List Row → Type 0
IsUnique [] = Unit {0}
IsUnique ((n, s) ∷ rows) = (row_score n rows ≡ none) × IsUnique rows

pub record SortedSets : Type 1 where
  pub Set : Type 0
  pub empty : Set
  pub rows : Set → List Row
  pub zadd : ℕ → ℤ → Set → Set
  pub zincrby : ℕ → ℤ → Set → Set
  pub rows-empty : rows empty ≡ []
  pub rows_ranked : (t : Set) → IsRanked (rows t)
  pub rows_unique : (t : Set) → IsUnique (rows t)
  pub score-zadd :
      (m n : ℕ) (s : ℤ) (t : Set)
      → row_score n (rows (zadd m s t)) ≡ (if m == n then some s else row_score n (rows t))
  pub score-zincrby :
      (m n : ℕ) (d : ℤ) (t : Set)
      → row_score n (rows (zincrby m d t))
        ≡ (if m == n then some (or_zero (row_score m (rows t)) +ℤ d) else row_score n (rows t))

-- ZCOUNT key (s +inf: the rows that score strictly higher.
unfoldable pub count_above : ℤ → List Row → ℕ
count_above s [] = 0
count_above s ((n, t) ∷ rows) = (if ltb_ℤ s t then 1 else 0) + count_above s rows

-- A key with its time to live: the second at which Redis drops it, if any.
pub record Entry (S : Type 0) : Type 0 where
  pub set : S
  pub expires : Option ℕ

abbrev pub is_gone : ℕ → Option ℕ → Bool
is_gone clock none = false
is_gone clock (some at) = leb at clock

abbrev pub Boards : Type 0 → Type 0
Boards S = Key → Entry S

abbrev pub modify : {S : Type 0} → Key → (Entry S → Entry S) → Boards S → Boards S
modify k f boards j = if eq_key k j then f (boards j) else boards j

-- EXPIRE on a key that is there and has no expiry yet; a set without rows is no key.
abbrev pub first_expiry : Option ℕ → ℕ → Option ℕ
first_expiry none at = some at
first_expiry (some before) at = some before

abbrev pub expire_new : {S : Type 0} → ℕ → List Row → Entry S → Entry S
expire_new at [] e = e
expire_new at (row ∷ rest) e = record e { expires = first_expiry e.expires at }
