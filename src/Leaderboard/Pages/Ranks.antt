-- ===== src/Leaderboard/Pages/Ranks.antt =====
-- internal/leaderboard/leaderboard.go: the ranks on a page, of which PageAt asks for one only.
use Prim.Native.String.{String}
use podium.Base.{
  ℕ, suc, ◌+◌, ◌≡◌, refl, sym, ap, ◌∙◌, inl, inr, true, some, List, [], ◌∷◌, ◌++◌, ok, arith,
  length, length-append, take, drop, take-append-drop, length-take, length-drop, zero,
  if◌then◌else◌, Bool-cases, subst,
}
use podium.Base.Int.{ℤ, ltb_ℤ, ◌≤ℤ◌, eq_int, eq_int_sound}
use podium.Leaderboard.Keys.{Key}
use podium.Leaderboard.Redis.{SortedSets, Row, count_above, Falls, IsRanked, Boards}
use podium.Leaderboard.Pages.{
  Entry, Resolver, entries_from, ids, slice, page_of, page_size, page_offset, page_at,
}

-- The reference: each row with its competition rank, one more than the rows that score higher.
unfoldable pub ranked_entries : (ℕ → String) → List Row → List Row → List Entry
ranked_entries names all [] = []
ranked_entries names all ((n, s) ∷ rows) =
    record { rank = count_above s all + 1; user_id = n; username = names n; points = s }
    ∷ ranked_entries names all rows

-- All rows score at least as much.
abbrev AtLeast : ℤ → List Row → Type 0
AtLeast s [] = Unit {0}
AtLeast s ((n, t) ∷ rows) = (s ≤ℤ t) × AtLeast s rows

AtLeast-le : (s t : ℤ) (rows : List Row) → s ≤ℤ t → AtLeast t rows → AtLeast s rows
AtLeast-le s t [] le h = tt
AtLeast-le s t ((n, u) ∷ rows) le h = (omega arith, AtLeast-le s t rows le h.1)

AtLeast-snoc : (s : ℤ) (n : ℕ) (rows : List Row) → AtLeast s rows → AtLeast s (rows ++ (n, s) ∷ [])
AtLeast-snoc s n [] h = (omega arith, tt)
AtLeast-snoc s n ((m, t) ∷ rows) h = (h.0, AtLeast-snoc s n rows h.1)

count_above-append :
    (s : ℤ) (xs ys : List Row) → count_above s (xs ++ ys) ≡ count_above s xs + count_above s ys
unfolding count_above
count_above-append s [] ys = omega arith
count_above-append s ((n, t) ∷ xs) ys = omega (arith, count_above-append s xs ys)

count_above-Falls : (s t : ℤ) (rows : List Row) → t ≤ℤ s → Falls t rows → count_above s rows ≡ 0
unfolding count_above
count_above-Falls s t [] le h = refl
count_above-Falls s t ((n, u) ∷ rows) le h = ground (arith, count_above-Falls s t rows le h.1)

-- Rows that score at least `t` all score more than `s`.
count_above-AtLeast :
    (s t : ℤ) (rows : List Row)
    → ltb_ℤ s t ≡ true
    → AtLeast t rows
    → count_above s rows ≡ length rows
unfolding count_above
count_above-AtLeast s t [] lt h = refl
count_above-AtLeast s t ((n, u) ∷ rows) lt h = ground (arith, count_above-AtLeast s t rows lt h.1)

IsRanked-AtLeast :
    (pre : List Row) (n : ℕ) (s : ℤ) (rest : List Row)
    → IsRanked (pre ++ (n, s) ∷ rest)
    → AtLeast s pre × Falls s rest
IsRanked-AtLeast [] n s rest h = (tt, h.0)
IsRanked-AtLeast ((m, t) ∷ pre) n s rest h =
    let (above, below) = IsRanked-AtLeast pre n s rest h.1 in ((first pre h.0, above), below)
  where
    first : (rows : List Row) → Falls t (rows ++ (n, s) ∷ rest) → s ≤ℤ t
    first [] f = f.0
    first (row ∷ rows) f = first rows f.1

append_snoc :
    (pre : List Row) (row : Row) (rest : List Row) → (pre ++ row ∷ []) ++ rest ≡ pre ++ row ∷ rest
append_snoc [] row rest = refl
append_snoc (x ∷ pre) row rest = ap (λ l. x ∷ l) (append_snoc pre row rest)

-- The rank that the loop gives to a row.
loop_rank :
    (pre : List Row) (n : ℕ) (s : ℤ) (rows : List Row) (rank : ℕ) (previous : ℤ)
    → Falls s rows
    → s ≤ℤ previous
    → AtLeast previous pre
    → rank ≡ count_above previous (pre ++ (n, s) ∷ rows) + 1
    → (if eq_int s previous then rank else length pre + 1)
      ≡ count_above s (pre ++ (n, s) ∷ rows) + 1
unfolding count_above
loop_rank pre n s rows rank previous below le least e = elim (Bool-cases (eq_int s previous)) [
  | inl same ↦
      let one : previous ≡ s = sym (eq_int_sound s previous same) in
      rw same (e ∙ ap (λ t. count_above t (pre ++ (n, s) ∷ rows) + 1) one)
  | inr other ↦
      let lt : ltb_ℤ s previous ≡ true = ground arith in
      let high = count_above-AtLeast s previous pre lt least in
      let low = count_above-Falls s s rows (omega arith) below in
      let split = count_above-append s pre ((n, s) ∷ rows) in
      rw other (ground (arith, high, low, split))
]

-- The loop, from a row whose predecessor scored `previous` and had the competition rank `rank`.
entries_from-ranked :
    (names : ℕ → String) (pre rows : List Row) (rank : ℕ) (previous : ℤ)
    → IsRanked (pre ++ rows)
    → Falls previous rows
    → AtLeast previous pre
    → rank ≡ count_above previous (pre ++ rows) + 1
    → entries_from names (length pre) rank previous rows ≡ ranked_entries names (pre ++ rows) rows
unfolding entries_from ranked_entries
entries_from-ranked names pre [] rank previous ranked falls least e = refl
entries_from-ranked names pre ((n, s) ∷ rows) rank previous ranked falls least e =
    let (above, below) = IsRanked-AtLeast pre n s rows ranked in
    let same = append_snoc pre (n, s) rows in
    let here = loop_rank pre n s rows rank previous below falls.0 least e in
    let place : length (pre ++ (n, s) ∷ []) ≡ length pre + 1 = length-append pre ((n, s) ∷ []) in
    let rank' : ℕ = count_above s (pre ++ (n, s) ∷ rows) + 1 in
    let rest =
      entries_from-ranked names (pre ++ (n, s) ∷ []) rows rank' s (rw same ranked) below
        (AtLeast-snoc s n pre above) (rw same refl) in
    let moved : entries_from names (length pre + 1) rank' s rows
        ≡ ranked_entries names (pre ++ (n, s) ∷ rows) rows =
      subst
        (λ i. entries_from names i rank' s rows ≡ ranked_entries names (pre ++ (n, s) ∷ rows) rows)
        place
        (subst
          (λ l.
            entries_from names (length (pre ++ (n, s) ∷ [])) rank' s rows
            ≡ ranked_entries names l rows)
          same rest) in
    rw here
      (ap (λ l. record { rank = rank'; user_id = n; username = names n; points = s } ∷ l) moved)

entries_from-take :
    (names : ℕ → String) (limit i rank : ℕ) (previous : ℤ) (rows : List Row)
    → entries_from names i rank previous (take limit rows)
      ≡ take limit (entries_from names i rank previous rows)
unfolding entries_from
entries_from-take names zero i rank previous rows = refl
entries_from-take names (suc l) i rank previous [] = refl
entries_from-take names (suc l) i rank previous ((n, s) ∷ rows) =
    rw (entries_from-take names l (i + 1) (if eq_int s previous then rank else i + 1) s rows)

ranked_entries-take :
    (names : ℕ → String) (all : List Row) (limit : ℕ) (rows : List Row)
    → ranked_entries names all (take limit rows) ≡ take limit (ranked_entries names all rows)
unfolding ranked_entries
ranked_entries-take names all zero rows = refl
ranked_entries-take names all (suc l) [] = refl
ranked_entries-take names all (suc l) ((n, s) ∷ rows) = rw (ranked_entries-take names all l rows)

-- The rows before a place that the list reaches are as many as the place.
length-take-drop :
    (offset : ℕ) (all : List Row) (row : Row) (rest : List Row)
    → drop offset all ≡ row ∷ rest
    → length (take offset all) ≡ offset
length-take-drop offset all row rest e =
    let left = length-drop offset all in
    let some_left : length (drop offset all) ≡ suc (length rest) = ap length e in
    omega (arith, length-take offset all, left, some_left)

-- The loop, from a place of the list, when the first row's rank is asked for.
entries_from-drop :
    (names : ℕ → String) (offset : ℕ) (all : List Row) (n : ℕ) (s : ℤ) (rest : List Row)
    → IsRanked all
    → drop offset all ≡ (n, s) ∷ rest
    → entries_from names offset (count_above s all + 1) s ((n, s) ∷ rest)
      ≡ ranked_entries names all ((n, s) ∷ rest)
entries_from-drop names offset all n s rest ranked e =
    let pre = take offset all in
    let whole : pre ++ (n, s) ∷ rest ≡ all =
      ap (λ l. pre ++ l) (sym e) ∙ take-append-drop offset all in
    let ranked' : IsRanked (pre ++ (n, s) ∷ rest) = subst (λ l. IsRanked l) (sym whole) ranked in
    let (above, below) = IsRanked-AtLeast pre n s rest ranked' in
    let run =
      entries_from-ranked names pre ((n, s) ∷ rest) (count_above s all + 1) s ranked'
        (omega arith, below) above (ap (λ l. count_above s l + 1) (sym whole)) in
    subst
      (λ l.
        entries_from names offset (count_above s all + 1) s ((n, s) ∷ rest)
        ≡ ranked_entries names l ((n, s) ∷ rest))
      whole
      (subst
        (λ i.
          entries_from names i (count_above s all + 1) s ((n, s) ∷ rest)
          ≡ ranked_entries names (pre ++ (n, s) ∷ rest) ((n, s) ∷ rest))
        (length-take-drop offset all (n, s) rest e) run)

module _ (r : SortedSets) where
  open r use {Set, rows, rows_ranked}

  page_of-ranked :
      (resolve : Resolver) (k : Key) (b : Boards Set) (total offset limit : ℕ) (names : ℕ → String)
      (below : List Row)
      → drop offset (rows (b k).set) ≡ below
      → resolve (ids (take limit below)) ≡ ok names
      → page_of r resolve k (some b) total offset (take limit below)
        ≡ ok (record {
          total = total;
          offset = offset;
          entries = ranked_entries names (rows (b k).set) (take limit below);
        })
  unfolding page_of ranked_entries
  page_of-ranked resolve k b total offset zero names below e named = refl
  page_of-ranked resolve k b total offset (suc l) names [] e named = refl
  page_of-ranked resolve k b total offset (suc l) names ((n, s) ∷ rest) e named =
      let all = rows (b k).set in
      let full = entries_from-drop names offset all n s rest (rows_ranked (b k).set) e in
      let listed =
        entries_from-take names (suc l) offset (count_above s all + 1) s ((n, s) ∷ rest)
        ∙ ap (take (suc l)) full
        ∙ sym (ranked_entries-take names all (suc l) ((n, s) ∷ rest)) in
      rw named
        (ap (λ entries. ok (record { total = total; offset = offset; entries = entries })) listed)

  -- PageAt, when ZREVRANGE and ZCOUNT see the same boards and the names are known: a page lists at
  -- most `page_size limit` rows of the board from the offset on, each with its competition rank, one
  -- more than the number of rows of the whole board that score strictly higher. The rank is the one
  -- that a count of each row would give, though the code counts for the first row only.
  pub page_at-ranked :
      (resolve : Resolver) (k : Key) (a b : Boards Set) (offset limit : ℤ) (names : ℕ → String)
      → resolve (ids (slice r (page_offset offset) (page_size limit) (rows (b k).set))) ≡ ok names
      → page_at r resolve k (some a) (some b) (some b) offset limit
        ≡ ok (record {
          total = length (rows (a k).set);
          offset = page_offset offset;
          entries =
              ranked_entries names
                (rows (b k).set)
                (slice r (page_offset offset) (page_size limit) (rows (b k).set));
        })
  unfolding page_at
  page_at-ranked resolve k a b offset limit names named =
      page_of-ranked resolve k b (length (rows (a k).set)) (page_offset offset) (page_size limit)
        names (drop (page_offset offset) (rows (b k).set)) refl named
