-- ===== src/Leaderboard/Keys/Names.antt =====
-- internal/leaderboard/keys.go: the names of the periods, and keys that are equal.
use Prim.Native.String.{String}
use text.Mathlib.Text.{◌==◌ as str_eq}
use text.Mathlib.TextEquality.{eq_iff}
use text.Mathlib.TextPositions.{eq_refl}
use podium.Base.{
  ◌≡◌, refl, sym, ap, ◌∙◌, ◌⊎◌, inl, inr, true, some, List, [], ◌∷◌, arith, Bool-cases,
}
use podium.Leaderboard.Keys.{
  Period, all_time, daily, weekly, monthly, periods, period_name, find_period, parse_period, Bucket,
  all, day, week, month, eq_bucket, Scope, global, game, eq_scope, Key, eq_key,
}

-- The name of a period is read as that period.
pub parse_period-period_name : (p : Period) → parse_period (period_name p) ≡ some p
unfolding parse_period
parse_period-period_name all_time = refl
parse_period-period_name daily = refl
parse_period-period_name weekly = refl
parse_period-period_name monthly = refl

find_period_sound :
    (raw : String) (ps : List Period) (p : Period)
    → find_period raw ps ≡ some p
    → raw ≡ period_name p
unfolding find_period
find_period_sound raw [] p e = cc
find_period_sound raw (q ∷ ps) p e = elim (Bool-cases (str_eq (period_name q) raw)) [
  | inl hit ↦
      let same : some q ≡ some p = rw hit at e in
      sym ((eq_iff (period_name q) raw).0 hit) ∙ ap period_name (cc)
  | inr miss ↦ find_period_sound raw ps p (rw miss at e)
]

-- A text that is read as a period is its name, or empty and read as all-time.
pub parse_period_sound :
    (raw : String) (p : Period)
    → parse_period raw ≡ some p
    → (raw ≡ period_name p) ⊎ ((raw ≡ "") × (p ≡ all_time))
unfolding parse_period
parse_period_sound raw p e = elim (Bool-cases (str_eq raw "")) [
  | inl blank ↦
      let same : some all_time ≡ some p = rw blank at e in inr ((eq_iff raw "").0 blank, cc)
  | inr named ↦ inl (find_period_sound raw periods p (rw named at e))
]

pub eq_bucket_sound : (a b : Bucket) → eq_bucket a b ≡ true → a ≡ b
unfolding eq_bucket
eq_bucket_sound all all e = refl
eq_bucket_sound (day a) (day b) e = ap day (ground arith)
eq_bucket_sound (week a) (week b) e = ap week (ground arith)
eq_bucket_sound (month a) (month b) e = ap month (ground arith)
eq_bucket_sound all (day b) e = cc
eq_bucket_sound all (week b) e = cc
eq_bucket_sound all (month b) e = cc
eq_bucket_sound (day a) all e = cc
eq_bucket_sound (day a) (week b) e = cc
eq_bucket_sound (day a) (month b) e = cc
eq_bucket_sound (week a) all e = cc
eq_bucket_sound (week a) (day b) e = cc
eq_bucket_sound (week a) (month b) e = cc
eq_bucket_sound (month a) all e = cc
eq_bucket_sound (month a) (day b) e = cc
eq_bucket_sound (month a) (week b) e = cc

pub eq_bucket_refl : (a : Bucket) → eq_bucket a a ≡ true
unfolding eq_bucket
eq_bucket_refl all = refl
eq_bucket_refl (day a) = ground arith
eq_bucket_refl (week a) = ground arith
eq_bucket_refl (month a) = ground arith

pub eq_scope_sound : (a b : Scope) → eq_scope a b ≡ true → a ≡ b
unfolding eq_scope
eq_scope_sound global global e = refl
eq_scope_sound global (game b) e = cc
eq_scope_sound (game a) global e = cc
eq_scope_sound (game a) (game b) e = ap game ((eq_iff a b).0 e)

pub eq_scope_refl : (a : Scope) → eq_scope a a ≡ true
unfolding eq_scope
eq_scope_refl global = refl
eq_scope_refl (game a) = eq_refl a

pub eq_key_sound : (a b : Key) → eq_key a b ≡ true → a ≡ b
unfolding eq_key
eq_key_sound a b e = elim (Bool-cases (eq_scope a.scope b.scope)) [
  | inl same ↦
      let scopes = eq_scope_sound a.scope b.scope same in
      let buckets = eq_bucket_sound a.bucket b.bucket (rw same at e) in cc
  | inr other ↦ cc (rw other at e)
]

pub eq_key_refl : (a : Key) → eq_key a a ≡ true
unfolding eq_key
eq_key_refl a = rw (eq_scope_refl a.scope) (eq_bucket_refl a.bucket)
