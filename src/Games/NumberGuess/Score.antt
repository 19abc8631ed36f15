-- ===== src/Games/NumberGuess/Score.antt =====
-- The metric of a number-guess session, and how many moves it can take.
use podium.Base.{
  ℕ, ◌+◌, ◌-◌, ◌*◌, ◌≤◌, ◌<◌, ◌≡◌, ◌⊎◌, inl, inr, true, false, Option, List, [], ◌∷◌, Result, ok,
  ◌>>=◌, >>=-ok, arith, ltb, if◌then◌else◌, length, Bool-cases,
}
use podium.Base.Int.{ℤ, pos, sub_ℕ, ◌+ℤ◌, ◌-ℤ◌, ◌*ℤ◌, ◌≤ℤ◌}
use podium.Games.Common.{Bytes, Error, Outcome}
use podium.Games.Rng.{Digest}
use podium.Games.NumberGuess.{
  State, start, advance_round, narrow, settle_miss, judge, move, raw_total,
}
use podium.Games.NumberGuess.Bounds.{
  IsValid, start-IsValid, judge-IsValid, move-Judged, number_guess_move-IsValid, judge_counts,
}

-- The metric as a plain number, while the state is valid.
charged : State → ℕ
charged s = if s.done then s.total else s.total + (3 - s.round) * 7 - s.used

times7 : (k : ℕ) → k ≤ 3 → sub_ℕ 3 k *ℤ pos 7 ≡ pos ((3 - k) * 7)
unfolding ◌*ℤ◌
times7 k h = ground arith

raw_total-charged : (s : State) → IsValid s → raw_total s ≡ pos (charged s)
unfolding raw_total charged ◌+ℤ◌ ◌-ℤ◌
raw_total-charged s v = ground (arith, times7 s.round v.round_le)

judge-charged :
    (s : State) (guess secret : ℕ)
    → IsValid s
    → s.done ≡ false
    → (charged (judge s guess secret).0 ≤ charged s)
      × ((judge s guess secret).1.done ≡ (judge s guess secret).0.done)
unfolding charged judge settle_miss narrow advance_round
judge-charged s guess secret v open_ = ground arith

charged_range : (s : State) → IsValid s → (3 ≤ charged s) × (charged s ≤ 21)
unfolding charged
charged_range s v = ground arith

-- The metric of any state of a session lies between 3 and 21 guesses.
pub raw_total_range : (s : State) → IsValid s → (pos 3 ≤ℤ raw_total s) × (raw_total s ≤ℤ pos 21)
raw_total_range s v = rw (raw_total-charged s v) (omega (arith, charged_range s v))

-- An accepted move counts one guess, never raises the metric (so stopping early never beats
-- playing on), and reports the session as done exactly when its new state is.
pub move_raw_total :
    (decoder : Bytes → Option (Option ℤ)) (s : State) (raw : Bytes) {r : State × Outcome}
    → IsValid s
    → move decoder s raw ≡ ok r
    → (raw_total r.0 ≤ℤ raw_total s) × (r.0.total ≡ s.total + 1) × (r.1.done ≡ r.0.done)
move_raw_total decoder s raw v e =
    let (open_, (guess, secret, found, _, _, same)) = move-Judged decoder s raw e in
    let after = judge-IsValid s guess secret v open_ found in
    let (falls, told) = judge-charged s guess secret v open_ in
    rw same (
      rw (raw_total-charged s v, raw_total-charged _ after) (omega (arith, falls)),
      judge_counts s guess secret,
      told,
    )

-- The moves of a session one after the other, each of them accepted.
unfoldable pub play : (Bytes → Option (Option ℤ)) → State → List Bytes → Result Error State
play decoder s [] = ok s
play decoder s (raw ∷ raws) = move decoder s raw >>= λ r. play decoder r.0 raws

play_counts :
    (decoder : Bytes → Option (Option ℤ)) (s : State) (raws : List Bytes) {t : State}
    → IsValid s
    → play decoder s raws ≡ ok t
    → IsValid t × (t.total ≡ s.total + length raws)
unfolding play
play_counts decoder s [] v e = ground arith
play_counts decoder s (raw ∷ raws) v e =
    let (r, first, rest) = >>=-ok (move decoder s raw) _ e in
    let counts = (move_raw_total decoder s raw v first).1 in
    let (valid, total) =
      play_counts decoder r.0 raws (number_guess_move-IsValid decoder s raw v first) rest in
    (valid, omega arith)

-- A session accepts fewer than 21 moves, or exactly 21, and then it is done.
pub play_ends :
    (decoder : Bytes → Option (Option ℤ)) (sha256 : Digest) (seed : ℕ) (raws : List Bytes)
    {t : State}
    → play decoder (start sha256 seed) raws ≡ ok t
    → (length raws < 21) ⊎ ((length raws ≡ 21) × (t.done ≡ true))
unfolding start
play_ends decoder sha256 seed raws {t} e =
    let (valid, total) =
      play_counts decoder (start sha256 seed) raws (start-IsValid sha256 seed) e in
    elim (Bool-cases t.done) [
      | inl over ↦ elim (Bool-cases (ltb (length raws) 21)) [
        | inl few ↦ inl (ground arith)
        | inr all ↦ inr (ground (arith, total, valid), over)
      ]
      | inr open_ ↦ inl (ground (arith, total, valid))
    ]
