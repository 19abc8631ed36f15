-- ===== src/Ratelimit.antt =====
-- internal/ratelimit/ratelimit.go and lua/fixed_window.lua, which Redis runs with nothing between its
-- commands. Times are milliseconds of Redis's clock; the counter is one key's value.
pub mod Windows
use podium.Base.{
  ℕ, ◌+◌, ◌-◌, Bool, true, false, Option, none, some, List, [], ◌∷◌, leb, ltb, ◌==◌, if◌then◌else◌,
}

pub record Counter : Type 0 where
  pub count : ℕ
  pub expires : Option ℕ

pub record Result : Type 0 where
  pub allowed : Bool
  pub remaining : ℕ
  pub retry_after : ℕ

-- What became of the script's call: an error may leave it run or not.
pub data Call : Type 0 where
  answered lost refused : Call

abbrev is_gone : ℕ → Option ℕ → Bool
is_gone now none = false
is_gone now (some at) = leb at now

-- The key as Redis has it: dropped once it expires.
unfoldable pub live : ℕ → Option Counter → Option Counter
live now none = none
live now (some c) = if is_gone now c.expires then none else some c

-- INCR
abbrev pub incr : Option Counter → Counter
incr none = record { count = 1; expires = none }
incr (some c) = record c { count = c.count + 1 }

-- PEXPIRE where the script asks for it: for a new counter, or one that never expires.
abbrev pub first_or : ℕ → Option ℕ → ℕ
first_or at none = at
first_or at (some before) = before

abbrev pub expiry : ℕ → Counter → ℕ
expiry at c = if c.count == 1 then at else first_or at c.expires

abbrev pub counted : ℕ → ℕ → Option Counter → Counter
counted now window found =
    let c : Counter = incr found in
    record { count = c.count; expires = some (expiry (now + window) c) }

abbrev pub verdict : ℕ → ℕ → ℕ → Result
verdict limit count left =
    if ltb limit count
    then record { allowed = false; remaining = 0; retry_after = left }
    else record { allowed = true; remaining = limit - count; retry_after = left }

abbrev pub delivered : Call → Result → Counter → Option Counter → Option Result × Option Counter
delivered answered reply after before = (some reply, some after)
delivered lost reply after before = (none, some after)
delivered refused reply after before = (none, before)

-- Allow; `none` for a call that failed.
unfoldable pub allow : Call → ℕ → ℕ → ℕ → Option Counter → Option Result × Option Counter
unfolding live
allow call limit window now found =
    let c : Counter = incr (live now found) in
    delivered call (verdict limit c.count (expiry (now + window) c - now))
      (counted now window (live now found)) found

-- Reset, whether its call succeeds or not.
unfoldable pub reset : Call → Option Counter → Bool × Option Counter
reset answered found = (true, none)
reset lost found = (false, none)
reset refused found = (false, found)

abbrev pub is_allowed : Option Result → Bool
is_allowed none = false
is_allowed (some r) = r.allowed

-- enforceLimit of internal/httpapi/auth.go: a call that failed lets its request through.
abbrev pub lets_through : Option Result → Bool
lets_through none = true
lets_through (some r) = r.allowed

-- What happens to the counter of a key: a request that is checked, or a reset after a login.
pub data Event : Type 0 where
  checking : Call → Event
  resetting : Call → Event

abbrev pub handled : ℕ → ℕ → ℕ → Event → Option Counter → ℕ × Option Counter
handled limit window now (checking call) found =
    let (reply, after) = allow call limit window now found in
    (if lets_through reply then 1 else 0, after)
handled limit window now (resetting call) found = (0, (reset call found).1)

-- How many requests some events let through, each at its time.
unfoldable pub let_through : ℕ → ℕ → List (ℕ × Event) → Option Counter → ℕ
unfolding allow reset
let_through limit window [] found = 0
let_through limit window ((now, event) ∷ rest) found =
    let (through, after) = handled limit window now event found in
    let more = let_through limit window rest after in through + more

-- How many of some calls are allowed, each at its time.
unfoldable pub permitted : ℕ → ℕ → List (ℕ × Call) → Option Counter → ℕ
unfolding allow
permitted limit window [] found = 0
permitted limit window ((now, call) ∷ rest) found =
    let (reply, after) = allow call limit window now found in
    let more = permitted limit window rest after in (if is_allowed reply then 1 else 0) + more
