-- ===== src/Ratelimit/Windows.antt =====
-- internal/ratelimit/lua/fixed_window.lua: how many requests are let through
-- within a time.
use podium.Base.{
  ℕ, suc, ◌+◌, ◌-◌, ◌*◌, ◌≤◌, ◌<◌, ◌≡◌, refl, sym, inl, inr, Bool, true, false, Option, none, some,
  List, [], ◌∷◌, length, arith, leb, min, ◌==◌, if◌then◌else◌, Bool-cases, subst,
}
use podium.Ratelimit.{
  Counter, Call, answered, lost, refused, live, allow, reset, permitted, Event, checking, resetting,
  let_through,
}

-- Entries in the order of their times, from `since` on and before `until`.
abbrev pub Within : {A : Type 0} → ℕ → ℕ → List (ℕ × A) → Type 0
Within since until [] = Unit {0}
Within since until ((now, a) ∷ rest) = (since ≤ now) × (now < until) × Within now until rest

abbrev lasting : ℕ → ℕ → Counter
lasting k e = record { count = k; expires = some e }

abbrev unset : ℕ → Counter
unset k = record { count = k; expires = none }

-- What events may let through beyond the windows' limits: every check that failed, and the limit
-- again for every reset that ran.
unfoldable pub allowance : ℕ → List (ℕ × Event) → ℕ
allowance limit [] = 0
allowance limit ((now, checking answered) ∷ rest) = allowance limit rest
allowance limit ((now, checking lost) ∷ rest) = 1 + allowance limit rest
allowance limit ((now, checking refused) ∷ rest) = 1 + allowance limit rest
allowance limit ((now, resetting answered) ∷ rest) = limit + allowance limit rest
allowance limit ((now, resetting lost) ∷ rest) = limit + allowance limit rest
allowance limit ((now, resetting refused) ∷ rest) = allowance limit rest

either : (b : Bool) (x : ℕ) → (if b then x else x) ≡ x
either true x = refl
either false x = refl

-- The bounds for a counter that lasts to the end, none, and one that never expires.
abbrev Bounded : ℕ → ℕ → ℕ → List (ℕ × Event) → Type 0
Bounded limit window until events =
    ((k e : ℕ)
      → 1 ≤ k
      → until ≤ e
      → let_through limit window events (some (lasting k e)) ≤ (limit - k) + allowance limit events)
    × (let_through limit window events none ≤ limit + allowance limit events)
    × ((k : ℕ) → let_through limit window events (some (unset k)) ≤ limit + allowance limit events)

let_through-Bounded :
    (limit window since until : ℕ) (events : List (ℕ × Event))
    → until ≤ since + window
    → Within since until events
    → Bounded limit window until events
unfolding let_through allow live reset allowance
let_through-Bounded limit window since until [] long within =
    (λ k e low late. omega arith, omega arith, λ k. omega arith)
let_through-Bounded limit window since until ((now, checking refused) ∷ rest) long
      (after, before, within) =
    let (lasts, gone, never) =
      let_through-Bounded limit window now until rest (omega arith) within in
    (
      λ k e low late. omega (arith, lasts k e low late),
      omega (arith, gone),
      λ k. omega (arith, never k),
    )
let_through-Bounded limit window since until ((now, resetting refused) ∷ rest) long
      (after, before, within) =
    let (lasts, gone, never) =
      let_through-Bounded limit window now until rest (omega arith) within in
    (
      λ k e low late. omega (arith, lasts k e low late),
      omega (arith, gone),
      λ k. omega (arith, never k),
    )
let_through-Bounded limit window since until ((now, resetting answered) ∷ rest) long
      (after, before, within) =
    let (lasts, gone, never) =
      let_through-Bounded limit window now until rest (omega arith) within in
    (λ k e low late. omega (arith, gone), omega (arith, gone), λ k. omega (arith, gone))
let_through-Bounded limit window since until ((now, resetting lost) ∷ rest) long
      (after, before, within) =
    let (lasts, gone, never) =
      let_through-Bounded limit window now until rest (omega arith) within in
    (λ k e low late. omega (arith, gone), omega (arith, gone), λ k. omega (arith, gone))
let_through-Bounded limit window since until ((now, checking lost) ∷ rest) long
      (after, before, within) =
    let (lasts, gone, never) =
      let_through-Bounded limit window now until rest (omega arith) within in
    (
      λ k e low late.
          let there : leb e now ≡ false = ground arith in
          let more : (k + 1 == 1) ≡ false = ground arith in
          let later = lasts (k + 1) e (omega arith) late in rw (there, more) (omega (arith, later)),
      (let later = lasts 1 (now + window) (omega arith) (omega arith) in omega (arith, later)),
      λ k.
          let later = lasts (k + 1) (now + window) (omega arith) (omega arith) in
          rw (either (k + 1 == 1) (now + window)) (omega (arith, later)),
    )
let_through-Bounded limit window since until ((now, checking answered) ∷ rest) long
      (after, before, within) =
    let (lasts, gone, never) =
      let_through-Bounded limit window now until rest (omega arith) within in
    (
      λ k e low late.
          let there : leb e now ≡ false = ground arith in
          let more : (k + 1 == 1) ≡ false = ground arith in
          let later = lasts (k + 1) e (omega arith) late in
          rw (there, more) (ground (arith, later)),
      (let later = lasts 1 (now + window) (omega arith) (omega arith) in ground (arith, later)),
      λ k.
          let later = lasts (k + 1) (now + window) (omega arith) (omega arith) in
          rw (either (k + 1 == 1) (now + window)) (ground (arith, later)),
    )

-- A counter that lasts for some of the time.
let_through-ending :
    (limit window since until k e : ℕ) (events : List (ℕ × Event))
    → until ≤ since + window
    → Within since until events
    → let_through limit window events (some (lasting k e))
      ≤ ((limit - k) + limit) + allowance limit events
unfolding let_through allow live reset allowance
let_through-ending limit window since until k e [] long within = omega arith
let_through-ending limit window since until k e ((now, event) ∷ rest) long (after, before, within) =
    by_event event (λ j. let_through-ending limit window now until j e rest (omega arith) within)
  where
    bounded : Bounded limit window until rest
    bounded = let_through-Bounded limit window now until rest (omega arith) within

    by_event :
        (event : Event)
        → ((j : ℕ)
            → let_through limit window rest (some (lasting j e))
              ≤ ((limit - j) + limit) + allowance limit rest)
        → let_through limit window ((now, event) ∷ rest) (some (lasting k e))
          ≤ ((limit - k) + limit) + allowance limit ((now, event) ∷ rest)
    by_event (checking refused) still = omega (arith, still k)
    by_event (resetting refused) still = omega (arith, still k)
    by_event (resetting answered) still = omega (arith, bounded.1)
    by_event (resetting lost) still = omega (arith, bounded.1)
    by_event (checking lost) still =
        let fresh = bounded.0 1 (now + window) (omega arith) (omega arith) in
        let restart = bounded.0 (k + 1) (now + window) (omega arith) (omega arith) in
        elim (Bool-cases (leb e now)) [
          | inl over ↦ rw over (omega (arith, fresh))
          | inr there ↦ elim (Bool-cases (k + 1 == 1)) [
            | inl first ↦ rw (there, first) (omega (arith, restart))
            | inr more ↦ rw (there, more) (omega (arith, still (k + 1)))
          ]
        ]
    by_event (checking answered) still =
        let fresh = bounded.0 1 (now + window) (omega arith) (omega arith) in
        let restart = bounded.0 (k + 1) (now + window) (omega arith) (omega arith) in
        elim (Bool-cases (leb e now)) [
          | inl over ↦ rw over (ground (arith, fresh))
          | inr there ↦ elim (Bool-cases (k + 1 == 1)) [
            | inl first ↦ rw (there, first) (ground (arith, restart))
            | inr more ↦ rw (there, more) (ground (arith, still (k + 1)))
          ]
        ]

-- Whatever the counter was: of the requests of one key within a time that is no longer than the
-- window, at most twice the limit are let through, with one more for each check that failed, which
-- lets its request through, and the limit once more for each reset that ran.
pub let_through_twice :
    (limit window since until : ℕ) (found : Option Counter) (events : List (ℕ × Event))
    → until ≤ since + window
    → Within since until events
    → let_through limit window events found ≤ 2 * limit + allowance limit events
let_through_twice limit window since until none events long within =
    omega (arith, (let_through-Bounded limit window since until events long within).1)
let_through_twice limit window since until (some c) events long within = by_expiry c.expires refl
  where
    Bound : Option ℕ → Type 0
    Bound x =
        let_through limit window events (some (record { count = c.count; expires = x }))
        ≤ 2 * limit + allowance limit events

    by_expiry : (x : Option ℕ) → c.expires ≡ x → Bound c.expires
    by_expiry none is =
        subst Bound (sym is) (
          omega
            (arith, (let_through-Bounded limit window since until events long within).2 c.count))
    by_expiry (some e) is =
        subst Bound (sym is)
          (omega (arith, let_through-ending limit window since until c.count e events long within))

abbrev pub AllAnswered : List (ℕ × Call) → Type 0
AllAnswered [] = Unit {0}
AllAnswered ((now, call) ∷ rest) = (call ≡ answered) × AllAnswered rest

permitted-exact_lasting :
    (limit window since until k e : ℕ) (calls : List (ℕ × Call))
    → 1 ≤ k
    → until ≤ e
    → Within since until calls
    → AllAnswered calls
    → permitted limit window calls (some (lasting k e)) ≡ min (length calls) (limit - k)
unfolding permitted allow live
permitted-exact_lasting limit window since until k e [] low long within all = omega arith
permitted-exact_lasting limit window since until k e ((now, call) ∷ rest) low long
      (after, before, within) (is, all) =
    let there : leb e now ≡ false = ground arith in
    let more : (k + 1 == 1) ≡ false = ground arith in
    let later =
      permitted-exact_lasting limit window now until (k + 1) e rest (omega arith) long within all in
    rw (is, there, more) (ground (arith, later))

-- From no counter, when every call is answered and all fall within one window of the first: as many
-- are allowed as there are, up to the limit.
pub permitted_exact :
    (limit window first until : ℕ) (calls : List (ℕ × Call))
    → until ≤ first + window
    → first < until
    → Within first until calls
    → AllAnswered calls
    → permitted limit window ((first, answered) ∷ calls) none ≡ min (suc (length calls)) limit
unfolding permitted allow live
permitted_exact limit window first until calls long before within all =
    let later =
      permitted-exact_lasting limit window first until 1 (first + window) calls (omega arith) long
        within all in
    ground (arith, later)
