-- ===== src/Games/Registry.antt =====
-- internal/games: the five definitions and the registry that holds them. `Summary` and `Rules`,
-- which only the pages of the site show, are left out of a definition.
pub mod Lookup
pub mod Scores
use Prim.Native.String.{String}
use text.Mathlib.Text.{◌==◌ as str_eq}
use podium.Base.{
  ℕ, zero, suc, ◌≡◌, Bool, true, false, Option, none, some, List, [], ◌∷◌, ◌++◌, map, Result, ok,
  err, or_fail, ◌>>=◌, if◌then◌else◌,
}
use podium.Base.Int.{ℤ, pos}
use podium.Games.Common.{Bytes, Time, Error, no_such_game, Outcome}
use podium.Games.Rng.{Digest}
use podium.Games.Float64.{Float64}
use podium.Games.Points.{scale, clamp}
use podium.Games.Engine.{Logic, Codec, Engine, engine_for}
use podium.Games.NumberGuess
use podium.Games.Memory
use podium.Games.Reaction
use podium.Games.MathSprint
use podium.Games.WordScramble

abbrev pub Slug : Type 0
Slug = String

pub record Definition (F : Type 0) : Type 0 where
  pub slug : Slug
  pub name : String
  pub metric : String
  pub lower_is_better : Bool
  pub duration : Option ℕ
  pub engine : Engine F
  pub points : F → F

-- The JSON of the five states, views and moves.
pub record Json : Type 0 where
  pub reaction_codec : Codec Reaction.State Reaction.View
  pub reaction_move : Bytes → Option Reaction.Action
  pub math_sprint_codec : Codec MathSprint.State MathSprint.View
  pub math_sprint_move : Bytes → Option (Option ℤ)
  pub memory_codec : Codec Memory.State Memory.View
  pub memory_move : Bytes → Option (List ℤ)
  pub word_scramble_codec : Codec WordScramble.State WordScramble.View
  pub word_scramble_move : Bytes → Option WordScramble.Move
  pub number_guess_codec : Codec NumberGuess.State NumberGuess.View
  pub number_guess_move : Bytes → Option (Option ℤ)

-- The linear scale from the worst to the best raw value.
abbrev pub points_from : (f : Float64) → ℕ → ℕ → f.Float → f.Float
points_from f worst best raw = scale f raw (f.of_int (pos worst)) (f.of_int (pos best))

module _ (f : Float64) (sha256 : Digest) (words : List (List ℕ)) (json : Json) where
  open f use {Float, of_int, div}

  unfoldable pub reaction_logic : Logic Float Reaction.State Reaction.View
  reaction_logic = record {
    start = λ seed now. Reaction.start seed;
    deadline = λ s. none;
    view = Reaction.view;
    move = Reaction.move sha256 json.reaction_move;
    raw = λ s. div (of_int (Reaction.raw_total s)) (of_int (pos Reaction.rounds));
  }

  unfoldable pub math_sprint_logic : Logic Float MathSprint.State MathSprint.View
  math_sprint_logic = record {
    start = MathSprint.start;
    deadline = λ s. some s.deadline;
    view = MathSprint.view sha256;
    move = MathSprint.move sha256 json.math_sprint_move;
    raw = λ s. of_int (pos (MathSprint.raw_total s));
  }

  unfoldable pub memory_logic : Logic Float Memory.State Memory.View
  memory_logic = record {
    start = λ seed now. Memory.start seed;
    deadline = λ s. none;
    view = Memory.view sha256;
    move = λ s raw now. Memory.move sha256 json.memory_move s raw;
    raw = λ s. of_int (pos (Memory.raw_total s));
  }

  unfoldable pub word_scramble_logic : Logic Float WordScramble.State WordScramble.View
  word_scramble_logic = record {
    start = WordScramble.start;
    deadline = λ s. some s.deadline;
    view = WordScramble.view sha256 words;
    move = WordScramble.move sha256 words json.word_scramble_move;
    raw = λ s. of_int (pos (WordScramble.raw_total s));
  }

  unfoldable pub number_guess_logic : Logic Float NumberGuess.State NumberGuess.View
  number_guess_logic = record {
    start = λ seed now. NumberGuess.start sha256 seed;
    deadline = λ s. none;
    view = NumberGuess.view;
    move = λ s raw now. NumberGuess.move json.number_guess_move s raw;
    raw = λ s. of_int (NumberGuess.raw_total s);
  }

  unfoldable pub reaction_definition : Definition Float
  reaction_definition = record {
    slug = "reaction";
    name = "Reaction Time";
    metric = "milliseconds";
    lower_is_better = true;
    duration = none;
    engine = engine_for reaction_logic json.reaction_codec;
    points = points_from f 500 180;
  }

  unfoldable pub math_sprint_definition : Definition Float
  math_sprint_definition = record {
    slug = "math-sprint";
    name = "Math Sprint";
    metric = "correct answers";
    lower_is_better = false;
    duration = some MathSprint.duration;
    engine = engine_for math_sprint_logic json.math_sprint_codec;
    points = points_from f 0 30;
  }

  unfoldable pub memory_definition : Definition Float
  memory_definition = record {
    slug = "memory";
    name = "Memory Sequence";
    metric = "sequence length";
    lower_is_better = false;
    duration = none;
    engine = engine_for memory_logic json.memory_codec;
    points = points_from f 0 12;
  }

  unfoldable pub word_scramble_definition : Definition Float
  word_scramble_definition = record {
    slug = "word-scramble";
    name = "Word Scramble";
    metric = "words solved";
    lower_is_better = false;
    duration = some WordScramble.duration;
    engine = engine_for word_scramble_logic json.word_scramble_codec;
    points = points_from f 0 15;
  }

  unfoldable pub number_guess_definition : Definition Float
  number_guess_definition = record {
    slug = "number-guess";
    name = "Number Guess";
    metric = "guesses";
    lower_is_better = true;
    duration = none;
    engine = engine_for number_guess_logic json.number_guess_codec;
    points = points_from f 21 9;
  }

  unfoldable pub definitions : List (Definition Float)
  definitions =
      reaction_definition ∷ math_sprint_definition ∷ memory_definition ∷ word_scramble_definition
      ∷ number_guess_definition ∷ []

-- Definition.Points
unfoldable pub points_of : (f : Float64) → Definition f.Float → f.Float → ℤ
points_of f d raw = clamp f (d.points raw)

-- The map is an association list with the newest entry first.
pub record Registry (F : Type 0) : Type 0 where
  pub order : List Slug
  pub entries : List (Slug × Definition F)

module _ {F : Type 0} where
  unfoldable pub register : Registry F → List (Definition F) → Registry F
  register r [] = r
  register r (d ∷ ds) =
      register (record { order = r.order ++ d.slug ∷ []; entries = (d.slug, d) ∷ r.entries }) ds

  unfoldable pub new_registry : List (Definition F) → Registry F
  unfolding register
  new_registry ds = register (record { order = []; entries = [] }) ds

  unfoldable pub find : Slug → List (Slug × Definition F) → Option (Definition F)
  find slug [] = none
  find slug ((key, d) ∷ rest) = if str_eq key slug then some d else find slug rest

  unfoldable pub get : Registry F → Slug → Result Error (Definition F)
  unfolding find
  get r slug = or_fail (find slug r.entries) no_such_game

  abbrev pub collect : Option (Definition F) → List (Definition F) → List (Definition F)
  collect none ds = ds
  collect (some d) ds = d ∷ ds

  -- Every game in display order; a slug of `order` always has its entry.
  unfoldable pub all_of : Registry F → List Slug → List (Definition F)
  all_of r [] = []
  all_of r (slug ∷ slugs) = collect (find slug r.entries) (all_of r slugs)

  unfoldable pub all : Registry F → List (Definition F)
  unfolding all_of
  all r = all_of r r.order
