-- ===== src/Leaderboard/Pages.antt =====
-- internal/leaderboard/leaderboard.go: the reads of a board. Each command sees the boards of its own
-- moment, or fails (`none`). The names come from the name resolver.
pub mod Ranks
use Prim.Native.String.{String}
use podium.Base.{
  ℕ, suc, ◌+◌, ◌-◌, ◌*◌, Bool, true, false, ◌||◌, Option, none, some, List, [], ◌∷◌, Result, ok,
  err, or_fail, ◌>>=◌, length, take, drop, ◌==◌, leb, ltb, if◌then◌else◌,
}
use podium.Base.Int.{ℤ, pos, pos_part, ltb_ℤ, eq_int}
use podium.Leaderboard.Keys.{Key}
use podium.Leaderboard.Redis.{SortedSets, Row, row_score, count_above, Boards}
use podium.Leaderboard.Submit.{Standing, zscore}

pub data Error : Type 0 where
  unavailable unranked : Error

pub record Entry : Type 0 where
  pub rank : ℕ
  pub user_id : ℕ
  pub username : String
  pub points : ℤ

-- A page, without the scope and the period that it was asked for.
pub record Page : Type 0 where
  pub total : ℕ
  pub offset : ℕ
  pub entries : List Entry

abbrev pub max_page_size : ℕ
max_page_size = 100

unfoldable pub page_size : ℤ → ℕ
page_size limit =
    if ltb_ℤ (pos 0) limit
    then (if ltb_ℤ (pos max_page_size) limit then 20 else pos_part limit)
    else 20

-- A negative offset is 0.
abbrev pub page_offset : ℤ → ℕ
page_offset offset = pos_part offset

-- The loop over the rows: a row's rank is that of the row before it, or its own place if it scores
-- less. `i` is the place of the row, counted from 0.
unfoldable pub entries_from : (ℕ → String) → ℕ → ℕ → ℤ → List Row → List Entry
entries_from names i rank previous [] = []
entries_from names i rank previous ((n, s) ∷ rows) =
    let rank' : ℕ = if eq_int s previous then rank else i + 1 in
    record { rank = rank'; user_id = n; username = names n; points = s }
    ∷ entries_from names (i + 1) rank' s rows

abbrev pub ids : List Row → List ℕ
ids [] = []
ids ((n, s) ∷ rows) = n ∷ ids rows

-- The names of some users, or an error.
abbrev pub Resolver : Type 0
Resolver = List ℕ → Result Error (ℕ → String)

module _ (r : SortedSets) where
  open r use {Set, rows}

  abbrev pub read : Key → Option (Boards Set) → Result Error (List Row)
  read k none = err unavailable
  read k (some boards) = ok (rows (boards k).set)

  -- ZREVRANGE key offset offset+limit-1
  abbrev pub slice : ℕ → ℕ → List Row → List Row
  slice offset limit all = take limit (drop offset all)

  -- The part of PageAt after its rows are read.
  unfoldable pub page_of :
      Resolver → Key → Option (Boards Set) → ℕ → ℕ → List Row → Result Error Page
  page_of resolve k counted total offset [] =
      ok (record { total = total; offset = offset; entries = [] })
  page_of resolve k counted total offset ((n, s) ∷ rest) = do
    all ← read k counted
    names ← resolve (ids ((n, s) ∷ rest))
    ok (record {
      total = total;
      offset = offset;
      entries = entries_from names offset (count_above s all + 1) s ((n, s) ∷ rest);
    })

  -- PageAt: ZCARD, ZREVRANGE and ZCOUNT, each on the boards that it meets.
  unfoldable pub page_at :
      Resolver → Key → (sized ranged counted : Option (Boards Set)) → ℤ → ℤ → Result Error Page
  unfolding page_of page_size
  page_at resolve k sized ranged counted offset limit = do
    all ← read k sized
    listed ← read k ranged
    page_of resolve k counted (length all) (page_offset offset)
        (slice (page_offset offset) (page_size limit) listed)

  -- Size: ZCARD.
  unfoldable pub size : Key → Option (Boards Set) → Result Error ℕ
  size k boards = do all ← read k boards; ok (length all)

  -- Exists: a key is there as long as its set has rows.
  abbrev pub has_rows : List Row → Bool
  has_rows [] = false
  has_rows (row ∷ rest) = true

  unfoldable pub exists : Key → Option (Boards Set) → Result Error Bool
  exists k boards = do all ← read k boards; ok (has_rows all)

  abbrev pub row_after : Option ℕ → Option ℕ
  row_after none = none
  row_after (some i) = some (suc i)

  -- ZREVRANK: the place of a member.
  unfoldable pub row_index : ℕ → List Row → Option ℕ
  row_index m [] = none
  row_index m ((n, s) ∷ rows) =
      let later = row_index m rows in if n == m then some 0 else row_after later

  -- The part of Standing after the rank: the players around a user, if any are asked for. The page
  -- takes its own time, so its key `later` may name a newer window.
  unfoldable pub around :
      Resolver
      → (k later : Key) → (indexed sized ranged again : Option (Boards Set)) → ℕ
      → ℤ
      → Standing
      → Result Error (Standing × List Entry)
  unfolding row_index page_at
  around resolve k later indexed sized ranged again m neighbours place =
      if ltb_ℤ (pos 0) neighbours
      then (do
        now ← read k indexed
        index ← or_fail (row_index m now) unavailable
        page ←
            page_at resolve later sized ranged again (pos (index - pos_part neighbours))
              (pos (2 * pos_part neighbours + 1))
        ok (place, page.entries))
      else ok (place, [])

  -- Standing: ZSCORE, ZCOUNT, ZREVRANK and those of a page, each on the boards that it meets.
  unfoldable pub standing_of :
      Resolver
      → (k later : Key) → (scored counted indexed sized ranged again : Option (Boards Set)) → ℕ
      → ℤ
      → Result Error (Standing × List Entry)
  unfolding around
  standing_of resolve k later scored counted indexed sized ranged again m neighbours = do
    all ← read k scored
    score ← or_fail (row_score m all) unranked
    above ← read k counted
    around resolve k later indexed sized ranged again m neighbours
        (record { points = score; rank = count_above score above + 1 })
