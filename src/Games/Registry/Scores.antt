-- ===== src/Games/Registry/Scores.antt =====
-- The points of the five registered games.
use podium.Base.{ℕ, ◌≤◌, ◌<◌, ◌≡◌, true, List, [], ◌∷◌, arith, if◌then◌else◌, err}
use podium.Base.Int.{pos, ◌≤ℤ◌}
use podium.Games.Common.{no_such_game}
use podium.Games.Rng.{Digest}
use podium.Games.Float64.{Float64}
use podium.Games.Points.{clamp, clamp_range, clamp_mono, scale_mono, scale_anti}
use podium.Games.Registry.{
  Slug, Definition, Json, reaction_definition, math_sprint_definition, memory_definition,
  word_scramble_definition, number_guess_definition, definitions, points_of, points_from,
  new_registry, get, all,
}
use podium.Games.Registry.Lookup.{Distinct, Fresh, AllFound, new_registry_lem}

-- Points of a game: in range for every metric that is a number, and never fewer for a metric
-- that is at least as good.
abbrev pub ScoresWell : (f : Float64) → f.Float → f.Float → Definition f.Float → Type 0
ScoresWell f x y d =
    (pos 0 ≤ℤ points_of f d x)
    × (points_of f d x ≤ℤ pos 10000)
    × (if d.lower_is_better
        then points_of f d y ≤ℤ points_of f d x
        else points_of f d x ≤ℤ points_of f d y)

module _ (f : Float64) where
  rises :
      (worst best : ℕ)
      → worst < best
      → best ≤ 10000
      → (x y : f.Float) → f.leb x y ≡ true
      → (pos 0 ≤ℤ clamp f (points_from f worst best x))
        × (clamp f (points_from f worst best x) ≤ℤ pos 10000)
        × (clamp f (points_from f worst best x) ≤ℤ clamp f (points_from f worst best y))
  rises worst best apart top x y h =
      let kept = scale_mono f worst best x y apart top h in
      let range = clamp_range f (points_from f worst best x) (f.leb_self _ _ kept).0 in
      (range.0, range.1, clamp_mono f _ _ kept)

  falls :
      (worst best : ℕ)
      → best < worst
      → worst ≤ 10000
      → (x y : f.Float) → f.leb x y ≡ true
      → (pos 0 ≤ℤ clamp f (points_from f worst best x))
        × (clamp f (points_from f worst best x) ≤ℤ pos 10000)
        × (clamp f (points_from f worst best y) ≤ℤ clamp f (points_from f worst best x))
  falls worst best apart top x y h =
      let turned = scale_anti f worst best x y apart top h in
      let range = clamp_range f (points_from f worst best x) (f.leb_self _ _ turned).1 in
      (range.0, range.1, clamp_mono f _ _ turned)

abbrev pub AllScore : (f : Float64) → f.Float → f.Float → List (Definition f.Float) → Type 0
AllScore f x y [] = Unit {0}
AllScore f x y (d ∷ ds) = ScoresWell f x y d × AllScore f x y ds

module _ (f : Float64) (sha256 : Digest) (words : List (List ℕ)) (json : Json) where
  -- All five games score well: points lie between 0 and 10,000 for every metric that is a number,
  -- and follow its order in the direction that `lower_is_better` gives.
  pub definitions-AllScore :
      (x y : f.Float) → f.leb x y ≡ true → AllScore f x y (definitions f sha256 words json)
  unfolding definitions reaction_definition math_sprint_definition memory_definition
      word_scramble_definition number_guess_definition points_of
  definitions-AllScore x y h = (
    falls f 500 180 (omega arith) (omega arith) x y h,
    (
      rises f 0 30 (omega arith) (omega arith) x y h,
      (
        rises f 0 12 (omega arith) (omega arith) x y h,
        (
          rises f 0 15 (omega arith) (omega arith) x y h,
          (falls f 21 9 (omega arith) (omega arith) x y h, tt),
        ),
      ),
    ),
  )

  definitions-Distinct : Distinct (definitions f sha256 words json)
  unfolding definitions reaction_definition math_sprint_definition memory_definition
      word_scramble_definition number_guess_definition
  definitions-Distinct = ground arith

  -- The registry of the five games finds each under its slug, lists them in order, and refuses any
  -- slug that none of them has.
  pub registry_lem :
      (slug : Slug)
      → Fresh slug (definitions f sha256 words json)
      → let r = new_registry (definitions f sha256 words json) in
        AllFound r (definitions f sha256 words json)
        × (all r ≡ definitions f sha256 words json)
        × (get r slug ≡ err no_such_game)
  registry_lem slug fresh =
      let (found, whole, refused) =
        new_registry_lem (definitions f sha256 words json) definitions-Distinct in
      (found, whole, refused slug fresh)
