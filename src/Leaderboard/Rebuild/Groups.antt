-- ===== src/Leaderboard/Rebuild/Groups.antt =====
-- internal/leaderboard/rebuild.go: the groups of the query and the maps that are filled from them.
use text.Mathlib.Text.{◌==◌ as str_eq}
use text.Mathlib.TextEquality.{eq_iff}
use text.Mathlib.TextPositions.{eq_refl}
use podium.Base.{
  ℕ, ◌≡◌, refl, sym, ap, ◌∙◌, ◌⊎◌, inl, inr, Bool, true, false, ◌&&◌, Option, none, some, List, [],
  ◌∷◌, arith, ◌==◌, if◌then◌else◌, Bool-cases, subst,
}
use podium.Base.Int.{ℤ, pos, ◌+ℤ◌, ltb_ℤ, int_laws}
use podium.Games.Registry.{Slug}
use podium.Leaderboard.Redis.{Row, row_score, or_zero}
use podium.Leaderboard.Submit.Effect.{better, +ℤ_zero}
use podium.Leaderboard.Submit.Totals.{total, total-Once, total-zero, Once, str_eq_comm}
use podium.Leaderboard.Rebuild.{Best, is_of, raise, put, add, game_scores, global_scores}

-- The best of a group, if it is there.
unfoldable pub find_best : Slug → ℕ → List Best → Option ℤ
find_best g n [] = none
find_best g n (b ∷ bs) = if is_of g n b then some b.points else find_best g n bs

-- No group is there twice.
abbrev pub IsGrouped : List Best → Type 0
IsGrouped [] = Unit {0}
IsGrouped (b ∷ bs) = (find_best b.game b.user_id bs ≡ none) × IsGrouped bs

and_true : (a b : Bool) → (a && b) ≡ true → (a ≡ true) × (b ≡ true)
and_true true true e = (refl, refl)
and_true true false e = cc (e)
and_true false b e = cc (e)

is_of-same : (g : Slug) (n : ℕ) (b : Best) → is_of g n b ≡ true → (b.game ≡ g) × (b.user_id ≡ n)
is_of-same g n b e =
    let (game, user) = and_true (str_eq b.game g) (b.user_id == n) e in
    ((eq_iff b.game g).0 game, ground arith)

is_of_refl : (b : Best) → is_of b.game b.user_id b ≡ true
is_of_refl b =
    let one : (b.user_id == b.user_id) ≡ true = ground arith in rw (eq_refl b.game, one) refl

-- Two rows of one group are of the same groups.
is_of-along :
    (g : Slug) (n : ℕ) (e b : Best) → is_of e.game e.user_id b ≡ true → is_of g n b ≡ is_of g n e
is_of-along g n e b same =
    let (game, user) = is_of-same e.game e.user_id b same in rw (game, user) refl

pub find_best-raise :
    (g : Slug) (n : ℕ) (e : Best) (bs : List Best)
    → find_best g n (raise e bs)
      ≡ (if is_of g n e then better (find_best g n bs) e.points else find_best g n bs)
unfolding find_best raise
find_best-raise g n e [] = refl
find_best-raise g n e (b ∷ bs) = elim (Bool-cases (is_of e.game e.user_id b)) [
  | inl same ↦ rw same (merged (is_of g n b) (is_of g n e) (is_of-along g n e b same))
  | inr other ↦
      rw (other, find_best-raise g n e bs)
        (kept other (Bool-cases (is_of g n b)) (Bool-cases (is_of g n e)))
]
  where
    merged :
        (x y : Bool)
        → x ≡ y
        → (if x
            then some (if ltb_ℤ b.points e.points then e.points else b.points)
            else find_best g n bs)
          ≡ (if y
              then better (if x then some b.points else find_best g n bs) e.points
              else (if x then some b.points else find_best g n bs))
    merged true true h = refl
    merged false false h = refl
    merged true false h = cc (h)
    merged false true h = cc (h)

    kept :
        is_of e.game e.user_id b ≡ false
        → (is_of g n b ≡ true) ⊎ (is_of g n b ≡ false)
        → (is_of g n e ≡ true) ⊎ (is_of g n e ≡ false)
        → (if is_of g n b
            then some b.points
            else (if is_of g n e then better (find_best g n bs) e.points else find_best g n bs))
          ≡ (if is_of g n e
              then better (if is_of g n b then some b.points else find_best g n bs) e.points
              else (if is_of g n b then some b.points else find_best g n bs))
    kept other (inl x) (inl y) =
        let (bg, bn) = is_of-same g n b x in
        let (eg, en) = is_of-same g n e y in
        let hit : is_of e.game e.user_id b ≡ true = rw (eg ∙ sym bg, en ∙ sym bn) (is_of_refl b) in
        cc (hit, other)
    kept other (inl x) (inr y) = rw (x, y) refl
    kept other (inr x) (inl y) = rw (x, y) refl
    kept other (inr x) (inr y) = rw (x, y) refl

-- Filling the groups keeps them apart.
pub raise-IsGrouped : (e : Best) (bs : List Best) → IsGrouped bs → IsGrouped (raise e bs)
unfolding raise find_best
raise-IsGrouped e [] h = (refl, tt)
raise-IsGrouped e (b ∷ bs) (fresh, h) = elim (Bool-cases (is_of e.game e.user_id b)) [
  | inl same ↦ rw same (fresh, h)
  | inr other ↦
      let apart : is_of b.game b.user_id e ≡ false =
        apart_from (Bool-cases (is_of b.game b.user_id e)) other in
      rw other (find_best-raise b.game b.user_id e bs ∙ rw apart fresh, raise-IsGrouped e bs h)
]
  where
    apart_from :
        (is_of b.game b.user_id e ≡ true) ⊎ (is_of b.game b.user_id e ≡ false)
        → is_of e.game e.user_id b ≡ false
        → is_of b.game b.user_id e ≡ false
    apart_from (inr h) other = h
    apart_from (inl h) other =
        let (eg, en) = is_of-same b.game b.user_id e h in
        let hit : is_of e.game e.user_id b ≡ true = rw (eg, en) (is_of_refl b) in cc (hit, other)

-- A map after an assignment, and after an addition.
row_score-put :
    (m n : ℕ) (s : ℤ) (rows : List Row)
    → row_score n (put m s rows) ≡ (if m == n then some s else row_score n rows)
unfolding row_score put
row_score-put m n s [] = refl
row_score-put m n s ((k, t) ∷ rows) = ground (arith, row_score-put m n s rows)

row_score-add :
    (m n : ℕ) (d : ℤ) (rows : List Row)
    → or_zero (row_score n (add m d rows))
      ≡ or_zero (row_score n rows) +ℤ (if m == n then d else pos 0)
unfolding row_score add ◌+ℤ◌
row_score-add m n d [] = ground arith
row_score-add m n d ((k, t) ∷ rows) = ground (arith, row_score-add m n d rows)

abbrev first_of : Option ℤ → Option ℤ → Option ℤ
first_of none o = o
first_of (some s) o = some s

-- The map of a game has the users' groups.
row_score-game_scores_from :
    (g : Slug) (n : ℕ) (acc : List Row) (bs : List Best)
    → IsGrouped bs
    → row_score n (game_scores g acc bs) ≡ first_of (find_best g n bs) (row_score n acc)
unfolding game_scores find_best
row_score-game_scores_from g n acc [] h = refl
row_score-game_scores_from g n acc (b ∷ bs) (fresh, h) =
    row_score-game_scores_from g n (if str_eq b.game g then put b.user_id b.points acc else acc) bs
      h
    ∙ by_game (Bool-cases (str_eq b.game g)) (Bool-cases (b.user_id == n))
  where
    by_game :
        (str_eq b.game g ≡ true) ⊎ (str_eq b.game g ≡ false)
        → ((b.user_id == n) ≡ true) ⊎ ((b.user_id == n) ≡ false)
        → first_of
            (find_best g n bs)
            (row_score n (if str_eq b.game g then put b.user_id b.points acc else acc))
          ≡ first_of (if is_of g n b then some b.points else find_best g n bs) (row_score n acc)
    by_game (inr other) user = rw other refl
    by_game (inl same) (inl own) =
        let one : b.user_id ≡ n = ground arith in
        let game : b.game ≡ g = (eq_iff b.game g).0 same in
        let none_left : find_best g n bs ≡ none =
          subst (λ i. find_best g i bs ≡ none) one
            (subst (λ j. find_best j b.user_id bs ≡ none) game fresh) in
        rw (same, own, none_left) (row_score-put b.user_id n b.points acc ∙ rw own refl)
    by_game (inl same) (inr other) =
        rw (same, other)
          (ap (first_of (find_best g n bs))
            (row_score-put b.user_id n b.points acc ∙ rw other refl))

pub row_score-game_scores :
    (g : Slug) (n : ℕ) (bs : List Best)
    → IsGrouped bs
    → row_score n (game_scores g [] bs) ≡ find_best g n bs
unfolding row_score
row_score-game_scores g n bs h =
    row_score-game_scores_from g n [] bs h ∙ first_none (find_best g n bs)
  where
    first_none : (o : Option ℤ) → first_of o none ≡ o
    first_none none = refl
    first_none (some s) = refl

abbrev pub GamesListed : List Slug → List Best → Type 0
GamesListed slugs [] = Unit {0}
GamesListed slugs (b ∷ bs) = Once b.game slugs × GamesListed slugs bs

pub raise-GamesListed :
    (slugs : List Slug) (e : Best) (bs : List Best)
    → Once e.game slugs
    → GamesListed slugs bs
    → GamesListed slugs (raise e bs)
unfolding raise
raise-GamesListed slugs e [] once h = (once, tt)
raise-GamesListed slugs e (b ∷ bs) once (one, h) = elim (Bool-cases (is_of e.game e.user_id b)) [
  | inl same ↦ rw same (one, h)
  | inr other ↦ rw other (one, raise-GamesListed slugs e bs once h)
]

-- A user's best in each game, 0 for none.
abbrev pub best_or_zero : ℕ → List Best → Slug → ℤ
best_or_zero n bs g = or_zero (find_best g n bs)

module _ (slugs : List Slug) (n : ℕ) (b : Best) (bs : List Best)
    (fresh : find_best b.game b.user_id bs ≡ none) where
  abbrev share : ℤ
  share = if b.user_id == n then b.points else pos 0

  own_best :
      (s : Slug) → str_eq s b.game ≡ true → best_or_zero n (b ∷ bs) s ≡ best_or_zero n bs s +ℤ share
  unfolding find_best ◌+ℤ◌
  own_best s hit =
      let game : b.game ≡ s = sym ((eq_iff s b.game).0 hit) in
      let same : str_eq b.game s ≡ true = rw game (eq_refl s) in
      let left : find_best s b.user_id bs ≡ none =
        subst (λ g. find_best g b.user_id bs ≡ none) game fresh in
      elim (Bool-cases (b.user_id == n)) [
        | inl own ↦
            let one : b.user_id ≡ n = ground arith in
            let none_left : find_best s n bs ≡ none =
              subst (λ i. find_best s i bs ≡ none) one left in
            rw (same, own, none_left) ground arith
        | inr other ↦ rw (same, other) (sym (+ℤ_zero (or_zero (find_best s n bs))))
      ]

  other_best :
      (s : Slug) → str_eq s b.game ≡ false → best_or_zero n (b ∷ bs) s ≡ best_or_zero n bs s
  unfolding find_best
  other_best s miss = rw (str_eq_comm s b.game miss) refl

  total-best :
      Once b.game slugs
      → total (best_or_zero n (b ∷ bs)) slugs ≡ total (best_or_zero n bs) slugs +ℤ share
  total-best once =
      total-Once (best_or_zero n bs) (best_or_zero n (b ∷ bs)) b.game share slugs own_best
        other_best once

-- The cross-game map has the sums of the users' groups.
row_score-global_scores_from :
    (slugs : List Slug) (n : ℕ) (acc : List Row) (bs : List Best)
    → IsGrouped bs
    → GamesListed slugs bs
    → or_zero (row_score n (global_scores acc bs))
      ≡ or_zero (row_score n acc) +ℤ total (best_or_zero n bs) slugs
unfolding global_scores find_best
row_score-global_scores_from slugs n acc [] h listed =
    rw (total-zero (λ s. pos 0) slugs (λ s. refl)) (sym (+ℤ_zero (or_zero (row_score n acc))))
row_score-global_scores_from slugs n acc (b ∷ bs) (fresh, h) (once, listed) =
    let rest = row_score-global_scores_from slugs n (add b.user_id b.points acc) bs h listed in
    let added = row_score-add b.user_id n b.points acc in
    let whole = total-best slugs n b bs fresh once in rest ∙ rw (added, whole) (omega int_laws)

pub row_score-global_scores :
    (slugs : List Slug) (n : ℕ) (bs : List Best)
    → IsGrouped bs
    → GamesListed slugs bs
    → or_zero (row_score n (global_scores [] bs)) ≡ total (best_or_zero n bs) slugs
unfolding row_score
row_score-global_scores slugs n bs h listed =
    row_score-global_scores_from slugs n [] bs h listed ∙ omega int_laws
