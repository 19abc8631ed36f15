-- ===== src/Leaderboard/Keys/Windows.antt =====
-- internal/leaderboard/keys.go: windows and buckets are the same cut of time.
use podium.Base.{ℕ, ◌+◌, ◌*◌, ◌/◌, ◌≤◌, ◌<◌, ◌≡◌, refl, sym, ap, ◌↔◌, Option, none, some, arith}
use podium.Games.Common.{Time}
use podium.Leaderboard.Keys.{
  Period, all_time, daily, weekly, monthly, ttl, second, Calendar, day_of, monday, window, Bucket,
  all, day, week, month, bucket,
}

-- The instants of a window; all-time has no ends.
abbrev pub InWindow : Option (Time × Time) → Time → Type 0
InWindow none t = Unit {0}
InWindow (some (from, until)) t = (from ≤ t) × (t < until)

abbrev pub same_day : ℕ → Bucket → ℕ
same_day d (day a) = a
same_day d (week a) = a
same_day d (month a) = a
same_day d all = d

-- Two instants have one bucket of a period exactly when the second lies in the window of the first.
pub bucket-window :
    (c : Calendar) (p : Period) (at t : Time)
    → (bucket c p at ≡ bucket c p t) ↔ InWindow (window c p at) t
unfolding bucket window monday
bucket-window c all_time at t = (λ e. tt, λ h. refl)
bucket-window c daily at t = (
  λ e. (let same : day_of at ≡ day_of t = ap (same_day 0) e in omega arith),
  λ h. (let same : day_of at ≡ day_of t = omega arith in ap day same),
)
bucket-window c weekly at t = (
  λ e. (let same : day_of at / 7 ≡ day_of t / 7 = ap (same_day 0) e in omega arith),
  λ h. (let same : day_of at / 7 ≡ day_of t / 7 = omega arith in ap week same),
)
bucket-window c monthly at t = (
  λ e.
      (let same : c.month (day_of at) ≡ c.month (day_of t) = ap (same_day 0) e in
        let low : c.first_day (c.month (day_of at)) ≤ day_of t =
          rw same (c.month_from (day_of t)) in
        let high : day_of t < c.first_day (c.month (day_of at) + 1) =
          rw same (c.month_until (day_of t)) in
        (omega arith, omega arith)),
  λ h.
      (let same : c.month (day_of t) ≡ c.month (day_of at) =
          c.month_unique (c.month (day_of at)) (day_of t) (omega arith) (omega arith) in
        ap month (sym same)),
)

-- The window has ended by an instant.
abbrev pub EndsBy : Option (Time × Time) → Time → Type 0
EndsBy none t = Unit {0}
EndsBy (some (from, until)) t = until ≤ t

-- An instant lies in its own window, and a key that is written then for the first time is kept at
-- least until the window has ended.
pub window-ttl :
    (c : Calendar) (p : Period) (at : Time)
    → InWindow (window c p at) at × EndsBy (window c p at) (at + ttl p * second)
unfolding window monday ttl
window-ttl c all_time at = (tt, tt)
window-ttl c daily at = ((omega arith, omega arith), omega arith)
window-ttl c weekly at = ((omega arith, omega arith), omega arith)
window-ttl c monthly at =
    let low = c.month_from (day_of at) in
    let high = c.month_until (day_of at) in
    let long = c.month_length (c.month (day_of at)) in ((omega arith, omega arith), omega arith)
