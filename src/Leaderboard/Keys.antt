-- ===== src/Leaderboard/Keys.antt =====
-- internal/leaderboard/keys.go: the periods, the windows they cover at an instant, and the keys of
-- the boards. A time counts nanoseconds from Monday, 1 January of the year 1, in UTC. The lengths
-- of the months are the parameter `Calendar`; a bucket is the day, the ISO week or the month that
-- its text names.
pub mod Windows
pub mod Names
use Prim.Native.String.{String}
use text.Mathlib.Text.{◌==◌ as str_eq}
use podium.Base.{
  ℕ, ◌+◌, ◌-◌, ◌*◌, ◌/◌, ◌%◌, ◌≤◌, ◌<◌, ◌≡◌, Bool, true, false, Option, none, some, List, [], ◌∷◌,
  Result, ok, err, ◌==◌, if◌then◌else◌,
}
use podium.Games.Common.{Time}
use podium.Games.Registry.{Slug}

pub data Period : Type 0 where
  all_time daily weekly monthly : Period

abbrev pub periods : List Period
periods = all_time ∷ daily ∷ weekly ∷ monthly ∷ []

abbrev pub period_name : Period → String
period_name all_time = "all-time"
period_name daily = "daily"
period_name weekly = "weekly"
period_name monthly = "monthly"

unfoldable pub find_period : String → List Period → Option Period
find_period raw [] = none
find_period raw (p ∷ ps) = if str_eq (period_name p) raw then some p else find_period raw ps

-- `none` is the error of an unknown period.
unfoldable pub parse_period : String → Option Period
unfolding find_period
parse_period raw = if str_eq raw "" then some all_time else find_period raw periods

-- Seconds; 0 keeps a key for ever.
unfoldable pub ttl : Period → ℕ
ttl all_time = 0
ttl daily = 48 * 3600
ttl weekly = 14 * 24 * 3600
ttl monthly = 62 * 24 * 3600

abbrev pub second : ℕ
second = 1000000000

abbrev pub day_length : ℕ
day_length = 24 * 3600 * second

-- The month of a day, counted from the first, and the first day of a month.
pub record Calendar : Type 0 where
  pub month : ℕ → ℕ
  pub first_day : ℕ → ℕ
  pub month_from : (day : ℕ) → first_day (month day) ≤ day
  pub month_until : (day : ℕ) → day < first_day (month day + 1)
  pub month_unique : (m day : ℕ) → first_day m ≤ day → day < first_day (m + 1) → month day ≡ m
  pub month_length : (m : ℕ) → first_day (m + 1) ≤ first_day m + 31

abbrev pub day_of : Time → ℕ
day_of at = at / day_length

-- Go's Weekday: Sunday is 0.
abbrev pub weekday : ℕ → ℕ
weekday day = (day + 1) % 7

-- The first day of the ISO week.
unfoldable pub monday : ℕ → ℕ
monday day = day - (weekday day + 6) % 7

unfoldable pub window : Calendar → Period → Time → Option (Time × Time)
unfolding monday
window c all_time at = none
window c daily at = some (day_of at * day_length, (day_of at + 1) * day_length)
window c weekly at = some (monday (day_of at) * day_length, (monday (day_of at) + 7) * day_length)
window c monthly at =
    let m = c.month (day_of at) in
    some (c.first_day m * day_length, c.first_day (m + 1) * day_length)

pub data Bucket : Type 0 where
  all : Bucket
  day week month : ℕ → Bucket

-- A week is named by its place among the weeks, which its ISO year and number tell.
unfoldable pub bucket : Calendar → Period → Time → Bucket
bucket c all_time at = all
bucket c daily at = day (day_of at)
bucket c weekly at = week (day_of at / 7)
bucket c monthly at = month (c.month (day_of at))

unfoldable pub eq_bucket : Bucket → Bucket → Bool
eq_bucket all all = true
eq_bucket (day a) (day b) = a == b
eq_bucket (week a) (week b) = a == b
eq_bucket (month a) (month b) = a == b
eq_bucket _ _ = false

-- A game's board, or the cross-game one.
pub data Scope : Type 0 where
  global : Scope
  game : Slug → Scope

-- Scope{Game: slug}: an empty game is the cross-game scope.
unfoldable pub scope_of : Slug → Scope
scope_of slug = if str_eq slug "" then global else game slug

abbrev pub scope_name : Scope → String
scope_name global = "global"
scope_name (game slug) = slug

unfoldable pub eq_scope : Scope → Scope → Bool
eq_scope global global = true
eq_scope (game a) (game b) = str_eq a b
eq_scope _ _ = false

-- The key of a sorted set.
pub record Key : Type 0 where
  pub scope : Scope
  pub bucket : Bucket

unfoldable pub key : Calendar → Scope → Period → Time → Key
key c scope period at = record { scope = scope; bucket = bucket c period at }

unfoldable pub eq_key : Key → Key → Bool
unfolding eq_scope eq_bucket
eq_key a b = if eq_scope a.scope b.scope then eq_bucket a.bucket b.bucket else false
