-- ===== src/Games/NumberGuess/Bounds.antt =====
-- What holds of a number-guess session between two moves: `start` establishes it and every
-- accepted move keeps it, so the secret of the round stays inside the range that the view shows,
-- a round ends within its budget, and the metric only falls.
use podium.Base.{
  ℕ, zero, suc, ◌+◌, ◌*◌, ◌≤◌, ◌<◌, ◌≡◌, refl, ◌≢◌, inl, inr, true, false, Option, none, some, List,
  [], ◌∷◌, ok, arith, ◌==◌, get_elem?, length, Bool-cases, unless-ok, ◌>>=◌,
}
use podium.Base.Int.{ℤ, pos, negsuc}
use podium.Games.Common.{Bytes, already_done, Outcome, decode_move, decoded}
use podium.Games.Rng.{Digest, codes, derive_range_low, derive_range_high}
use podium.Games.NumberGuess.{
  State, out_of_guesses, correct, start, advance_round, narrow, settle_miss, judge, in_range,
  guess_move, move,
}

abbrev pub AllFit : List ℕ → Type 0
AllFit [] = Unit {0}
AllFit (x ∷ xs) = (1 ≤ x) × (x ≤ 100) × AllFit xs

pub get_elem?-some : (xs : List ℕ) (i : ℕ) → i < length xs → (x : ℕ) × (get_elem? xs i ≡ some x)
get_elem?-some [] i h = elim h [ ]
get_elem?-some (x ∷ xs) zero h = (x, refl)
get_elem?-some (x ∷ xs) (suc i) h = get_elem?-some xs i (omega arith)

-- The number, if there is one, lies between the two bounds.
abbrev pub Within : ℕ → ℕ → Option ℕ → Type 0
Within low high none = Unit {0}
Within low high (some x) = (low ≤ x) × (x ≤ high)

get_elem?-Within : (xs : List ℕ) (i : ℕ) → AllFit xs → Within 1 100 (get_elem? xs i)
get_elem?-Within [] i h = tt
get_elem?-Within (x ∷ xs) zero h = (h.0, h.1)
get_elem?-Within (x ∷ xs) (suc i) h = get_elem?-Within xs i h.2

pub record IsValid (s : State) : Type 0 where
  pub secrets_fit : AllFit s.secrets
  pub secrets_length : length s.secrets ≡ 3
  pub bracket : Within s.low s.high (get_elem? s.secrets s.round)
  pub low_pos : 1 ≤ s.low
  pub high_le : s.high ≤ 100
  pub round_le : s.round ≤ 3
  pub done_round : s.done ≡ true → s.round ≡ 3
  pub done_used : s.done ≡ true → s.used ≡ 0
  pub round_done : s.done ≡ false → s.round < 3
  pub used_lt : s.used < 7
  pub total_low : s.used + s.round ≤ s.total
  pub total_high : s.total ≤ 7 * s.round + s.used

-- What a state keeps while a guess is being judged: the counters have moved, the round has not.
record IsJudged (s : State) : Type 0 where
  secrets_fit : AllFit s.secrets
  secrets_length : length s.secrets ≡ 3
  round_lt : s.round < 3
  open_ : s.done ≡ false
  used_pos : 1 ≤ s.used
  used_le : s.used ≤ 7
  total_low : s.used + s.round ≤ s.total
  total_high : s.total ≤ 7 * s.round + s.used

pub start-IsValid : (sha256 : Digest) (seed : ℕ) → IsValid (start sha256 seed)
unfolding start
start-IsValid sha256 seed = record {
  secrets_fit = fit;
  secrets_length = refl;
  bracket = (fit.0, fit.1);
  low_pos = omega arith;
  high_le = omega arith;
  round_le = omega arith;
  done_round = λ e. cc;
  done_used = λ e. refl;
  round_done = λ e. omega arith;
  used_lt = omega arith;
  total_low = omega arith;
  total_high = omega arith;
}
  where
    label : List ℕ
    label = codes "number-guess"

    fit : AllFit (start sha256 seed).secrets
    fit = (
      derive_range_low sha256 seed label 0 1 100,
      derive_range_high sha256 seed label 0 1 100 (omega arith),
      (
        derive_range_low sha256 seed label 1 1 100,
        derive_range_high sha256 seed label 1 1 100 (omega arith),
        (
          derive_range_low sha256 seed label 2 1 100,
          derive_range_high sha256 seed label 2 1 100 (omega arith),
          tt,
        ),
      ),
    )

advance_round-IsValid : (s : State) → IsJudged s → IsValid (advance_round s)
unfolding advance_round
advance_round-IsValid s j = record {
  secrets_fit = j.secrets_fit;
  secrets_length = j.secrets_length;
  bracket = get_elem?-Within s.secrets (s.round + 1) j.secrets_fit;
  low_pos = omega arith;
  high_le = omega arith;
  round_le = omega (arith, j.round_lt);
  done_round = ground (arith, j.round_lt, j.open_);
  done_used = λ e. refl;
  round_done = ground (arith, j.round_lt);
  used_lt = omega arith;
  total_low = omega (arith, j.total_low, j.used_pos);
  total_high = omega (arith, j.total_high, j.used_le);
}

-- The state in which a guess is judged: the counters have moved.
abbrev counted : State → State
counted s = record s { used = s.used + 1; total = s.total + 1 }

counted-IsJudged : (s : State) → IsValid s → s.done ≡ false → IsJudged (counted s)
counted-IsJudged s v e = ground arith

narrow-IsJudged : (guess secret : ℕ) (s : State) → IsJudged s → IsJudged (narrow guess secret s)
unfolding narrow
narrow-IsJudged guess secret s j = ground arith

-- The secret stays between the bounds when a wrong guess moves one of them.
narrow_bracket :
    (guess secret : ℕ) (s : State)
    → Within s.low s.high (some secret)
    → guess ≢ secret
    → Within (narrow guess secret s).low (narrow guess secret s).high (some secret)
unfolding narrow
narrow_bracket guess secret s h ne = ground arith

narrow_range :
    (guess secret : ℕ) (s : State)
    → 1 ≤ s.low
    → s.high ≤ 100
    → (1 ≤ (narrow guess secret s).low) × ((narrow guess secret s).high ≤ 100)
unfolding narrow
narrow_range guess secret s lo hi = ground arith

settle_miss-IsValid :
    (s : State)
    → IsJudged s
    → Within s.low s.high (get_elem? s.secrets s.round)
    → 1 ≤ s.low
    → s.high ≤ 100
    → IsValid (settle_miss s).0
unfolding settle_miss
settle_miss-IsValid s j b lo hi =
    ground (arith, advance_round-IsValid (record s { hint = out_of_guesses }))

counted_correct :
    (s : State) → IsJudged (counted s) → IsJudged (record (counted s) { hint = correct })
counted_correct s j = ground arith

narrow_found :
    (s : State) (guess secret : ℕ)
    → IsValid s
    → get_elem? s.secrets s.round ≡ some secret
    → guess ≢ secret
    → Within (narrow guess secret (counted s)).low (narrow guess secret (counted s)).high (
        get_elem? (narrow guess secret (counted s)).secrets (narrow guess secret (counted s)).round)
unfolding narrow
narrow_found s guess secret v e ne = ground arith

pub judge-IsValid :
    (s : State) (guess secret : ℕ)
    → IsValid s
    → s.done ≡ false
    → get_elem? s.secrets s.round ≡ some secret
    → IsValid (judge s guess secret).0
unfolding judge
judge-IsValid s guess secret v open_ e = elim (Bool-cases (guess == secret)) [
  | inl hit ↦ rw hit (
      advance_round-IsValid (record (counted s) { hint = correct })
        (counted_correct s (counted-IsJudged s v open_)))
  | inr miss ↦ rw miss (
      settle_miss-IsValid (narrow guess secret (counted s))
        (narrow-IsJudged guess secret (counted s) (counted-IsJudged s v open_))
        (narrow_found s guess secret v e (λ p. ground (arith)))
        (narrow_range guess secret (counted s) v.low_pos v.high_le).0
        (narrow_range guess secret (counted s) v.low_pos v.high_le).1)
]

-- What an accepted move did: it judged a guess from 1 to 100 against the secret of the round.
abbrev pub Judged : State → State × Outcome → Type 0
Judged s r =
    (guess : ℕ) × (secret : ℕ) × (get_elem? s.secrets s.round ≡ some secret)
    × (1 ≤ guess)
    × (guess ≤ 100)
    × (r ≡ judge s guess secret)

guess_accepted :
    (s : State) (guess : ℤ) {r : State × Outcome}
    → guess_move s (some guess) ≡ ok r
    → in_range guess ≡ true
    → (o : Option ℕ) → get_elem? s.secrets s.round ≡ o
    → Judged s r
unfolding guess_move
guess_accepted s guess e fits none found = ground arith
guess_accepted s (pos n) e fits (some secret) found =
    (n, secret, found, ground arith, ground arith, ground arith)
guess_accepted s (negsuc n) e fits (some secret) found = ground arith

guess_move-Judged :
    (s : State) (m : Option ℤ) {r : State × Outcome} → guess_move s m ≡ ok r → Judged s r
unfolding guess_move
guess_move-Judged s none e = cc
guess_move-Judged s (some guess) e = elim (Bool-cases (in_range guess)) [
  | inl fits ↦ guess_accepted s guess e fits (get_elem? s.secrets s.round) refl
  | inr out ↦ ground arith
]

pub move-Judged :
    (decoder : Bytes → Option (Option ℤ)) (s : State) (raw : Bytes) {r : State × Outcome}
    → move decoder s raw ≡ ok r
    → (s.done ≡ false) × Judged s r
unfolding move
move-Judged decoder s raw e =
    let (open_, rest) =
      unless-ok s.done already_done (decode_move decoder raw >>= guess_move s) e in
    let (m, _, judged) = decoded decoder raw (guess_move s) rest in
    (open_, guess_move-Judged s m judged)

-- An accepted move keeps `IsValid`: three secrets from 1 to 100, the secret of the round between
-- the bounds shown, the round and the guesses within their limits, done exactly at the third round.
pub number_guess_move-IsValid :
    (decoder : Bytes → Option (Option ℤ)) (s : State) (raw : Bytes) {r : State × Outcome}
    → IsValid s
    → move decoder s raw ≡ ok r
    → IsValid r.0
number_guess_move-IsValid decoder s raw v e =
    let (open_, (guess, secret, found, _, _, same)) = move-Judged decoder s raw e in
    rw same (judge-IsValid s guess secret v open_ found)

pub judge_counts : (s : State) (guess secret : ℕ) → (judge s guess secret).0.total ≡ s.total + 1
unfolding judge settle_miss narrow advance_round
judge_counts s guess secret = ground arith
