-- ===== src/Games/NumberGuess/Halving.antt =====
-- A player who sees only the view and always guesses the middle of the range finds the number:
-- the rules of the game say that 7 guesses are "exactly enough to always win".
use podium.Base.{
  ℕ, zero, suc, ◌+◌, ◌*◌, ◌/◌, ◌≤◌, ◌<◌, ◌≡◌, refl, ◌∙◌, ◌≢◌, true, false, Option, none, some, ok,
  err, arith, if◌then◌else◌, get_elem?,
}
use podium.Base.Int.{pos}
use native.Mathlib.Decide.{ℕ_discrete}
use podium.Games.Common.{Outcome, outcome}
use podium.Games.NumberGuess.{
  State, View, view, advance_round, narrow, settle_miss, judge, guess_move,
}
use podium.Games.NumberGuess.Bounds.{IsValid, judge-IsValid, get_elem?-some}

-- The middle of the range that the view shows.
unfoldable pub middle : View → ℕ
middle v = (v.low + v.high) / 2

-- Guess the middle up to `fuel` times; the state after the first correct guess.
unfoldable pub halve : ℕ → State → Option State
halve zero s = none
halve (suc fuel) s = elim (guess_move s (some (pos (middle (view s))))) [
  | err e ↦ none
  | ok (t, o) ↦ elim o.correct [ true ↦ some t | false ↦ halve fuel t ]
]

-- How wide a range `fuel` guesses can search.
abbrev span : ℕ → ℕ
span zero = 0
span (suc fuel) = 2 * span fuel + 1

-- What the search keeps: the secret is in a range that the guesses left can search.
record IsSearching (fuel secret : ℕ) (s : State) : Type 0 where
  valid : IsValid s
  open_ : s.done ≡ false
  found : get_elem? s.secrets s.round ≡ some secret
  left : s.used + fuel ≡ 7
  width : s.high + 1 ≤ s.low + span fuel

middle_range :
    (fuel secret : ℕ) (s : State)
    → IsSearching fuel secret s
    → (1 ≤ middle (view s)) × (middle (view s) ≤ 100)
unfolding middle view
middle_range fuel secret s h =
    ground (arith, h.found, h.valid.bracket, h.valid.low_pos, h.valid.high_le)

guess_middle :
    (fuel secret : ℕ) (s : State)
    → IsSearching fuel secret s
    → guess_move s (some (pos (middle (view s)))) ≡ ok (judge s (middle (view s)) secret)
unfolding guess_move
guess_middle fuel secret s h = ground (arith, h.found, middle_range fuel secret s h)

-- A correct guess ends the round.
judge_hit :
    (s : State) (guess secret : ℕ)
    → guess ≡ secret
    → ((judge s guess secret).1.correct ≡ true)
      × ((judge s guess secret).0.round ≡ s.round + 1)
      × ((judge s guess secret).0.total ≡ s.total + 1)
unfolding judge advance_round
judge_hit s guess secret e = ground arith

-- A wrong one short of the budget only moves a bound.
judge_miss :
    (s : State) (guess secret : ℕ)
    → guess ≢ secret
    → s.used + 1 < 7
    → judge s guess secret ≡ (
      narrow guess secret (record s { used = s.used + 1; total = s.total + 1 }),
      outcome false false,
    )
unfolding judge settle_miss narrow
judge_miss s guess secret ne h = ground arith

narrow_keeps :
    (s : State) (guess secret : ℕ)
    → let t = narrow guess secret s in
      (t.done ≡ s.done)
      × (t.secrets ≡ s.secrets)
      × (t.round ≡ s.round)
      × (t.used ≡ s.used)
      × (t.total ≡ s.total)
unfolding narrow
narrow_keeps s guess secret = ground arith

-- Half of the range is left.
narrow_width :
    (fuel secret : ℕ) (s : State)
    → (s.low ≤ secret) × (secret ≤ s.high)
    → s.high + 1 ≤ s.low + span (suc fuel)
    → middle (view s) ≢ secret
    → (narrow (middle (view s)) secret s).high + 1
      ≤ (narrow (middle (view s)) secret s).low + span fuel
unfolding narrow middle view
narrow_width fuel secret s within h ne = ground arith

-- With one guess left the range holds the secret alone, so it cannot miss.
last_guess : (secret : ℕ) (s : State) → IsSearching 1 secret s → middle (view s) ≡ secret
unfolding middle view
last_guess secret s h = ground (arith, h.found, h.valid.bracket, h.width)

search_on :
    (fuel secret : ℕ) (s : State)
    → IsSearching (suc fuel) secret s
    → middle (view s) ≢ secret
    → let r = judge s (middle (view s)) secret in
      (r.1.correct ≡ false)
      × (r.0.round ≡ s.round)
      × (r.0.total ≡ s.total + 1)
      × IsSearching fuel secret r.0
unfolding middle view
search_on zero secret s h ne = absurd (ne (last_guess secret s h))
search_on (suc fuel) secret s h ne =
    let valid = judge-IsValid s (middle (view s)) secret h.valid h.open_ h.found in
    let miss = judge_miss s (middle (view s)) secret ne (omega (arith, h.left)) in
    let t = record s { used = s.used + 1; total = s.total + 1 } in
    let keeps = narrow_keeps t (middle (view s)) secret in
    let width =
      narrow_width (suc fuel) secret t (ground (arith, h.found, h.valid.bracket)) h.width ne in
    rw miss (
      refl,
      keeps.2,
      keeps.4,
      record {
        valid = rw miss at valid;
        open_ = keeps.0 ∙ h.open_;
        found = rw (keeps.1, keeps.2) h.found;
        left = omega (arith, keeps.3, h.left);
        width = width;
      },
    )

halve_step :
    (fuel : ℕ) (s : State) (r : State × Outcome)
    → guess_move s (some (pos (middle (view s)))) ≡ ok r
    → halve (suc fuel) s ≡ (if r.1.correct then some r.0 else halve fuel r.0)
unfolding halve
halve_step fuel s r e = ground arith

halve_found :
    (fuel secret : ℕ) (s : State)
    → IsSearching fuel secret s
    → (t : State) × (halve fuel s ≡ some t) × (t.round ≡ s.round + 1) × (t.total ≤ s.total + fuel)
unfolding halve
halve_found zero secret s h = absurd (ground (arith, h.found, h.valid.bracket, h.width))
halve_found (suc fuel) secret s h = elim (ℕ_discrete (middle (view s)) secret) [
  | yes hit ↦
      let (told, round, total) = judge_hit s (middle (view s)) secret hit in
      (
        (judge s (middle (view s)) secret).0,
        rw (halve_step fuel s _ (guess_middle (suc fuel) secret s h), told),
        round,
        omega (arith, total),
      )
  | no miss ↦
      let (told, round, total, next) = search_on fuel secret s h miss in
      let (t, found, after, bound) =
        halve_found fuel secret (judge s (middle (view s)) secret).0 next in
      (
        t,
        rw (halve_step fuel s _ (guess_middle (suc fuel) secret s h), told) found,
        omega arith,
        omega arith,
      )
]

-- At the start of a round (no guess used, the full range shown), always guessing the middle of
-- the range solves the round within 7 guesses, whatever the secret is.
pub halve_wins :
    (s : State)
    → IsValid s
    → s.done ≡ false
    → s.used ≡ 0
    → s.low ≡ 1
    → s.high ≡ 100
    → (t : State) × (halve 7 s ≡ some t) × (t.round ≡ s.round + 1) × (t.total ≤ s.total + 7)
halve_wins s v open_ fresh low high =
    let (secret, found) =
      get_elem?-some s.secrets s.round (omega (arith, v.secrets_length, v.round_done open_)) in
    halve_found 7 secret s
      (record { valid = v; open_ = open_; found = found; left = omega arith; width = omega arith })
