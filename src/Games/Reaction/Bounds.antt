-- ===== src/Games/Reaction/Bounds.antt =====
-- A reaction session: the rounds and results go together, a tap is charged its reaction or the
-- foul penalty, and what that does to the metric.
use podium.Base.{
  ℕ, ◌+◌, ◌*◌, ◌≤◌, ◌<◌, ◌≡◌, refl, ap, ◌↔◌, ◌⊎◌, inl, inr, true, false, Option, none, some, List,
  [], ◌∷◌, ◌++◌, ok, ◌>>=◌, arith, if◌then◌else◌, length, length-append, unless-ok,
}
use podium.Base.Int.{ℤ, pos, pos_part, neg_part, ltb_ℤ, ◌≤ℤ◌, ◌+ℤ◌, +ℤ_parts, int_laws}
use podium.Games.Common.{Bytes, Time, already_done, Outcome, decode_move, decoded}
use podium.Games.Rng.{Digest, codes, derive_range, derive_range_low, derive_range_high}
use podium.Games.Reaction.{
  State, Action, arm, tap, other, start, is_armed, elapsed_ms, arm_round, tap_round, arm_move,
  tap_move, act, move, sum_results, raw_total,
}

-- No result is below the floor: a faster one was charged as a foul.
abbrev pub AllReal : List ℤ → Type 0
AllReal [] = Unit {0}
AllReal (r ∷ rs) = (pos 80 ≤ℤ r) × AllReal rs

pub record IsValid (s : State) : Type 0 where
  pub results_round : length s.results ≡ s.round
  pub round_le : s.round ≤ 5
  pub done_round : s.done ≡ true → s.round ≡ 5
  pub round_done : s.done ≡ false → s.round < 5
  pub fouls_le : s.fouls ≤ s.round
  pub real : AllReal s.results
  pub armed_open : is_armed s.go_at ≡ true → s.done ≡ false

pub start-IsValid : (seed : ℕ) → IsValid (start seed)
unfolding start
start-IsValid seed = ground arith

AllReal-append : (rs : List ℤ) (r : ℤ) → AllReal rs → pos 80 ≤ℤ r → AllReal (rs ++ r ∷ [])
AllReal-append [] r h k = (k, tt)
AllReal-append (x ∷ rs) r h k = (h.0, AllReal-append rs r h.1 k)

-- What a tap is charged.
abbrev pub charge : ℤ → ℤ
charge elapsed = if ltb_ℤ elapsed (pos 80) then pos 500 else elapsed

charge_real : (elapsed : ℤ) → pos 80 ≤ℤ charge elapsed
charge_real elapsed = ground arith

tap_round-IsValid :
    (s : State) (elapsed : ℤ) → IsValid s → s.done ≡ false → IsValid (tap_round s elapsed).0
unfolding tap_round
tap_round-IsValid s elapsed v open_ = record {
  results_round = ground (arith, length-append s.results (charge elapsed ∷ []), v.results_round);
  round_le = omega (arith, v.round_done open_);
  done_round = ground (arith, v.round_done open_);
  round_done = ground arith;
  fouls_le = ground (arith, v.fouls_le);
  real = AllReal-append s.results (charge elapsed) v.real (charge_real elapsed);
  armed_open = λ e. cc;
}

arm_round-IsValid :
    (sha256 : Digest) (s : State) (now : Time)
    → IsValid s
    → s.done ≡ false
    → IsValid (arm_round sha256 s now).0
unfolding arm_round
arm_round-IsValid sha256 s now v open_ = ground arith

-- What an accepted move did: it armed a round that was not armed, or tapped one that was.
abbrev pub Acted : Digest → State → Time → State × Outcome → Type 0
Acted sha256 s now r =
    ((s.go_at ≡ none) × (r ≡ arm_round sha256 s now))
    ⊎ ((go_at : Time) × (s.go_at ≡ some go_at) × (r ≡ tap_round s (elapsed_ms now go_at)))

act-Acted :
    (sha256 : Digest) (s : State) (now : Time) (a : Action) (o : Option Time) {r : State × Outcome}
    → s.go_at ≡ o
    → act sha256 s now a ≡ ok r
    → Acted sha256 s now r
unfolding act arm_move tap_move
act-Acted sha256 s now arm none at e = inl (at, ground arith)
act-Acted sha256 s now arm (some t) at e = ground arith
act-Acted sha256 s now tap none at e = ground arith
act-Acted sha256 s now tap (some t) at e = inr (t, at, ground arith)
act-Acted sha256 s now other o at e = cc

pub move-Acted :
    (sha256 : Digest) (decoder : Bytes → Option Action) (s : State) (raw : Bytes) (now : Time)
    {r : State × Outcome}
    → move sha256 decoder s raw now ≡ ok r
    → (s.done ≡ false) × Acted sha256 s now r
unfolding move
move-Acted sha256 decoder s raw now e =
    let (open_, rest) =
      unless-ok s.done already_done (decode_move decoder raw >>= act sha256 s now) e in
    let (a, _, acted) = decoded decoder raw (act sha256 s now) rest in
    (open_, act-Acted sha256 s now a s.go_at refl acted)

-- Every accepted move keeps `IsValid`, which `start` establishes: one result for each round
-- played, none below the 80 ms floor, done exactly at the fifth, armed only while open.
pub reaction_move-IsValid :
    (sha256 : Digest) (decoder : Bytes → Option Action) (s : State) (raw : Bytes) (now : Time)
    {r : State × Outcome}
    → IsValid s
    → move sha256 decoder s raw now ≡ ok r
    → IsValid r.0
reaction_move-IsValid sha256 decoder s raw now v e =
    let (open_, acted) = move-Acted sha256 decoder s raw now e in
    elim acted [
      | inl (_, same) ↦ rw same (arm_round-IsValid sha256 s now v open_)
      | inr (go_at, _, same) ↦ rw same (tap_round-IsValid s (elapsed_ms now go_at) v open_)
    ]

-- The response to an accepted move on an unarmed round is held back until the signal, which the
-- state keeps, between 1.2 and 3 seconds from now; the metric does not move.
pub arm_holds :
    (sha256 : Digest) (decoder : Bytes → Option Action) (s : State) (raw : Bytes) (now : Time)
    {r : State × Outcome}
    → move sha256 decoder s raw now ≡ ok r
    → s.go_at ≡ none
    → (go_at : Time) × (r.1.hold_until ≡ some go_at)
      × (r.0.go_at ≡ some go_at)
      × (now + 1200000000 ≤ go_at)
      × (go_at ≤ now + 3000000000)
      × (raw_total r.0 ≡ raw_total s)
unfolding arm_round raw_total
arm_holds sha256 decoder s raw now e idle =
    let (open_, acted) = move-Acted sha256 decoder s raw now e in
    let delay = derive_range sha256 s.seed (codes "reaction-delay") s.round 1200 3000 in
    let low = derive_range_low sha256 s.seed (codes "reaction-delay") s.round 1200 3000 in
    let high =
      derive_range_high sha256 s.seed (codes "reaction-delay") s.round 1200 3000 (omega arith) in
    elim acted [
      | inl (_, same) ↦ (now + delay * 1000000, rw same, rw same, omega arith, omega arith, rw same)
      | inr (go_at, armed, same) ↦ cc
    ]

sum_results-append :
    (total : ℤ) (rs : List ℤ) (r : ℤ) → sum_results total (rs ++ r ∷ []) ≡ sum_results total rs +ℤ r
unfolding sum_results
sum_results-append total [] r = refl
sum_results-append total (x ∷ rs) r = sum_results-append (total +ℤ x) rs r

regroup : (sum c : ℤ) (n m : ℕ) → n + 500 ≡ m → sum +ℤ c +ℤ pos n +ℤ pos 500 ≡ sum +ℤ pos m +ℤ c
regroup sum c n m h = omega int_laws

-- A tap replaces the penalty of 500 for its round by what it is charged.
tap_raw_total :
    (s : State) (elapsed : ℤ)
    → IsValid s
    → s.done ≡ false
    → raw_total (tap_round s elapsed).0 +ℤ pos 500 ≡ raw_total s +ℤ charge elapsed
unfolding raw_total tap_round
tap_raw_total s elapsed v open_ = rw (sum_results-append (pos 0) s.results (charge elapsed)) (
    regroup (sum_results (pos 0) s.results) (charge elapsed) _ _ (
      omega (
        arith,
        length-append s.results (charge elapsed ∷ []),
        v.results_round,
        v.round_done open_,
      )))

le_of_charge : (x y c : ℤ) → x +ℤ pos 500 ≡ y +ℤ c → (x ≤ℤ y) ↔ (c ≤ℤ pos 500)
le_of_charge x y c h =
    let p = ap pos_part h in
    let n = ap neg_part h in
    (λ k. omega (arith, +ℤ_parts, p, n), λ k. omega (arith, +ℤ_parts, p, n))

charge_le : (elapsed : ℤ) → (charge elapsed ≤ℤ pos 500) ↔ (elapsed ≤ℤ pos 500)
charge_le elapsed = ground arith

-- On an armed round an accepted move taps, and the metric of stopping after it is at most that of
-- stopping before exactly when the reaction took at most 500 ms, whether or not it was a foul; a
-- slower tap makes the metric worse than leaving the round unplayed.
pub tap_improves :
    (sha256 : Digest) (decoder : Bytes → Option Action) (s : State) (raw : Bytes) (now go_at : Time)
    {r : State × Outcome}
    → IsValid s
    → move sha256 decoder s raw now ≡ ok r
    → s.go_at ≡ some go_at
    → (raw_total r.0 ≤ℤ raw_total s) ↔ (elapsed_ms now go_at ≤ℤ pos 500)
tap_improves sha256 decoder s raw now go_at v e armed =
    let (open_, acted) = move-Acted sha256 decoder s raw now e in
    elim acted [
      | inl (idle, _) ↦ cc
      | inr (t, at, same) ↦
          let now_at : t ≡ go_at = ground arith in
          let i = le_of_charge _ _ _ (tap_raw_total s (elapsed_ms now t) v open_) in
          let j = charge_le (elapsed_ms now t) in
          rw (same, ← now_at) (λ k. j.0 (i.0 k), λ k. i.1 (j.1 k))
    ]

-- A tap less than 80 ms after the signal, or before it, is a foul: it is counted, charged 500 ms,
-- and reported as not correct.
pub tap_too_soon :
    (s : State) (now go_at : Time)
    → now < go_at + 80 * 1000000
    → let r = tap_round s (elapsed_ms now go_at) in
      (r.0.fouls ≡ s.fouls + 1) × (r.0.results ≡ s.results ++ pos 500 ∷ []) × (r.1.correct ≡ false)
unfolding tap_round elapsed_ms
tap_too_soon s now go_at h = ground arith
