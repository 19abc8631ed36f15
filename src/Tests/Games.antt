-- ===== src/Tests/Games.antt =====
-- The theorems on internal/games, applied to concrete inputs. The hash is the reversal of what was
-- written to it, and a move is JSON of which one byte is read.
use podium.Base.{
  ℕ, ◌+◌, ◌≤◌, ◌<◌, ◌≡◌, refl, ◌⊎◌, true, false, Option, none, some, List, [], ◌∷◌, ok, arith, ltb,
  length, ◌↔◌,
}
use mathlib.Core.List.{reverse}
use podium.Base.Int.{ℤ, pos, ◌≤ℤ◌}
use podium.Games.Common.{Bytes, Time, Outcome, outcome}
use podium.Games.Rng.{Digest}
use podium.Games.NumberGuess
use podium.Games.NumberGuess.Bounds as GuessBounds
use podium.Games.NumberGuess.Bounds.{number_guess_move-IsValid}
use podium.Games.NumberGuess.Score.{play, play_ends}
use podium.Games.NumberGuess.Halving.{halve, halve_wins}
use podium.Games.Memory
use podium.Games.Memory.Bounds as MemoryBounds
use podium.Games.Memory.Bounds.{
  sequence_prefix, memory_move-IsValid, repeat_all, repeat_all_completes,
}
use podium.Games.Reaction
use podium.Games.Reaction.Bounds as ReactionBounds
use podium.Games.Reaction.Bounds.{reaction_move-IsValid, arm_holds, tap_improves}
use podium.Games.MathSprint
use podium.Games.MathSprint.Bounds as Sprint
use podium.Games.MathSprint.Bounds.{value, problem_at_range, in_time, Accounted, play_accounts}
use podium.Games.WordScramble
use podium.Games.WordScramble.Letters.{SameLetters, scramble_word-SameLetters}
use podium.Games.WordScramble.Bounds.{Played, move-Played}

abbrev hash : Digest
hash written = reverse written

abbrev read_number : Bytes → Option (Option ℤ)
read_number [] = none
read_number (b ∷ bs) = some (some (pos b))

abbrev first_guess : NumberGuess.State
first_guess = NumberGuess.start hash 5

number_guess_move-IsValid_example : GuessBounds.IsValid (NumberGuess.judge first_guess 50 1).0
unfolding NumberGuess.move NumberGuess.guess_move NumberGuess.start podium.Games.Common.decode_move
    podium.Games.Rng.derive_range podium.Games.Rng.derive_intn podium.Games.Rng.derive
number_guess_move-IsValid_example =
    number_guess_move-IsValid read_number first_guess (50 ∷ []) (GuessBounds.start-IsValid hash 5)
      refl

halve_wins_example :
    (t : NumberGuess.State) × (halve 7 first_guess ≡ some t)
    × (t.round ≡ first_guess.round + 1)
    × (t.total ≤ first_guess.total + 7)
unfolding NumberGuess.start
halve_wins_example = halve_wins first_guess (GuessBounds.start-IsValid hash 5) refl refl refl refl

abbrev guesses : List Bytes
guesses = (50 ∷ []) ∷ (1 ∷ []) ∷ []

play_ends_example :
    (length guesses < 21)
    ⊎ ((length guesses ≡ 21)
        × ((NumberGuess.judge (NumberGuess.judge first_guess 50 1).0 1 1).0.done ≡ true))
unfolding NumberGuess.move play NumberGuess.start podium.Games.Common.decode_move
    NumberGuess.guess_move NumberGuess.judge podium.Games.Rng.derive_range
    podium.Games.Rng.derive_intn podium.Games.Rng.derive NumberGuess.settle_miss NumberGuess.narrow
play_ends_example =
    play_ends read_number hash 5 guesses
      {t = (NumberGuess.judge (NumberGuess.judge first_guess 50 1).0 1 1).0} refl

abbrev one_one : Bytes → Option (List ℤ)
one_one bs = some (pos 2 ∷ [])

memory_move-IsValid_example : MemoryBounds.IsValid (record (Memory.start 5) { done = true })
unfolding Memory.move Memory.start podium.Games.Common.decode_move Memory.answer_move Memory.eq_ints
    Memory.sequence podium.Games.Rng.derive_intn podium.Games.Rng.derive
memory_move-IsValid_example =
    memory_move-IsValid hash one_one (Memory.start 5) (1 ∷ [])
      {r = (record (Memory.start 5) { done = true }, outcome false true)}
      (MemoryBounds.start-IsValid 5) refl

repeat_all_completes_example :
    (t : Memory.State) × (repeat_all hash 3 (Memory.start 5) ≡ ok t)
    × (Memory.raw_total t ≡ Memory.raw_total (Memory.start 5) + 3)
    × (t.done ≡ ltb 19 ((Memory.start 5).completed + 3))
unfolding Memory.start
repeat_all_completes_example =
    repeat_all_completes hash 3 (Memory.start 5) (MemoryBounds.start-IsValid 5) refl (omega arith)

abbrev tapping : Bytes → Option Reaction.Action
tapping [] = none
tapping (b ∷ bs) = some Reaction.tap

abbrev arming : Bytes → Option Reaction.Action
arming bs = some Reaction.arm

-- A round that is armed for the second second.
abbrev armed_round : Reaction.State
armed_round = (Reaction.arm_round hash (Reaction.start 5) 0).0

abbrev tapped_round : Reaction.State × Outcome
tapped_round = Reaction.tap_round armed_round (Reaction.elapsed_ms 1500000000 1200000000)

armed-IsValid : ReactionBounds.IsValid armed_round
unfolding Reaction.move Reaction.start podium.Games.Common.decode_move Reaction.act
    Reaction.arm_move
armed-IsValid =
    reaction_move-IsValid hash arming (Reaction.start 5) (1 ∷ []) 0
      {r = Reaction.arm_round hash (Reaction.start 5) 0} (ReactionBounds.start-IsValid 5) refl

reaction_move-IsValid_example :
    ReactionBounds.IsValid (Reaction.arm_round hash (Reaction.start 5) 0).0
unfolding Reaction.move Reaction.start podium.Games.Common.decode_move Reaction.act
    Reaction.arm_move
reaction_move-IsValid_example =
    reaction_move-IsValid hash arming (Reaction.start 5) (1 ∷ []) 0
      {r = Reaction.arm_round hash (Reaction.start 5) 0} (ReactionBounds.start-IsValid 5) refl

tap_improves_example :
    (Reaction.raw_total tapped_round.0 ≤ℤ Reaction.raw_total armed_round)
    ↔ (Reaction.elapsed_ms 1500000000 1200000000 ≤ℤ pos 500)
unfolding Reaction.move Reaction.arm_round Reaction.start podium.Games.Common.decode_move
    Reaction.act Reaction.tap_move podium.Games.Rng.derive_range podium.Games.Rng.derive_intn
    podium.Games.Rng.derive
tap_improves_example =
    tap_improves hash tapping armed_round (1 ∷ []) 1500000000 1200000000 {r = tapped_round}
      armed-IsValid refl refl

abbrev sprint_moves : List (Bytes × Time)
sprint_moves = (24 ∷ [], 5) ∷ ([], 6) ∷ (13 ∷ [], 40000000000) ∷ []

play_accounts_example :
    Accounted 30000000000
      (in_time 30000000000 sprint_moves)
      (MathSprint.start 5 0)
      (Sprint.play hash read_number (MathSprint.start 5 0) sprint_moves)
unfolding MathSprint.start
play_accounts_example =
    play_accounts hash read_number 30000000000 (MathSprint.start 5 0) sprint_moves refl refl

-- "crane", "nacre" and "wharf".
abbrev three_words : List (List ℕ)
three_words =
    (99 ∷ 114 ∷ 97 ∷ 110 ∷ 101 ∷ [])
    ∷ (110 ∷ 97 ∷ 99 ∷ 114 ∷ 101 ∷ [])
    ∷ (119 ∷ 104 ∷ 97 ∷ 114 ∷ 102 ∷ [])
    ∷ []

abbrev crane : List ℕ
crane = 99 ∷ 114 ∷ 97 ∷ 110 ∷ 101 ∷ []

abbrev spelled : Bytes → Option WordScramble.Move
spelled bs = some (record { answer = bs; skip = false })

scramble_word-SameLetters_example : SameLetters (WordScramble.scramble_word hash crane 5 0) crane
scramble_word-SameLetters_example = scramble_word-SameLetters hash crane 5 0

abbrev solved_one : WordScramble.State × Outcome
solved_one = (record (WordScramble.start 5 0) { solved = 1; index = 1 }, outcome true false)

move-Played_example :
    (7 ≤ (WordScramble.start 5 0).deadline)
    × ((m : WordScramble.Move) × (spelled crane ≡ some m)
        × Played hash three_words (WordScramble.start 5 0) m solved_one)
unfolding WordScramble.move WordScramble.start podium.Games.Common.decode_move
    WordScramble.answer_move WordScramble.judge WordScramble.to_lower WordScramble.trim_space
    WordScramble.accepts WordScramble.is_word WordScramble.eq_text WordScramble.sorted_letters
    WordScramble.word_at podium.Games.Rng.derive_intn podium.Games.Rng.derive
move-Played_example =
    move-Played hash three_words spelled (WordScramble.start 5 0) crane 7 {r = solved_one} refl
