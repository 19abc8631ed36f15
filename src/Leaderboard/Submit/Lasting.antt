-- ===== src/Leaderboard/Submit/Lasting.antt =====
-- internal/leaderboard/lua/submit.lua: the keys of a bucket while none of them runs out.
use podium.Base.{
  ℕ, ◌+◌, ◌≤◌, ◌<◌, ◌≡◌, refl, ◌⊎◌, inl, inr, true, false, Option, none, some, List, [], ◌∷◌, arith,
  ◌==◌, Bool-cases,
}
use podium.Base.Int.{ℤ}
use podium.Games.Common.{Time}
use podium.Games.Registry.{Slug}
use podium.Leaderboard.Keys.{
  Period, periods, ttl, Calendar, Bucket, bucket, eq_bucket, Scope, global, scope_of, Key, key,
  eq_key,
}
use podium.Leaderboard.Redis.{
  SortedSets, Row, Entry, Boards, modify, first_expiry, expire_new, is_gone,
}
use podium.Leaderboard.Submit.{
  Call, answered, lost, refused, live, expire, write, at_or, improvement, zscore, delivered, place,
  place_all, submit,
}

-- Not before an instant, or never.
abbrev pub NotBefore : ℕ → Option ℕ → Type 0
NotBefore until none = Unit {0}
NotBefore until (some at) = until ≤ at

first_expiry-NotBefore :
    (until at : ℕ) (o : Option ℕ)
    → until ≤ at
    → NotBefore until o
    → NotBefore until (first_expiry o at)
first_expiry-NotBefore until at none late h = late
first_expiry-NotBefore until at (some before) late h = h

is_gone-NotBefore :
    (until clock : ℕ) (o : Option ℕ) → clock < until → NotBefore until o → is_gone clock o ≡ false
is_gone-NotBefore until clock none early h = refl
is_gone-NotBefore until clock (some at) early h = ground arith

eq_key-bucket :
    (s t : Scope) (b x : Bucket)
    → eq_key (record { scope = s; bucket = b }) (record { scope = t; bucket = x }) ≡ true
    → eq_bucket b x ≡ true
unfolding eq_key
eq_key-bucket s t b x e = ground arith

module _ (r : SortedSets) (until : ℕ) where
  open r use {Set, rows}

  abbrev pub Lasts : Entry Set → Type 0
  Lasts e = NotBefore until e.expires

  -- The first key that a call gives an expiry gets one that is late enough.
  abbrev pub Late : ℕ → ℕ → Type 0
  Late clock life = (life ≡ 0) ⊎ (until ≤ clock + life)

  modify-Lasts :
      (k j : Key) (g : Entry Set → Entry Set) (boards : Boards Set)
      → (eq_key k j ≡ true → Lasts (g (boards j)))
      → Lasts (boards j)
      → Lasts (modify k g boards j)
  modify-Lasts k j g boards new h = elim (Bool-cases (eq_key k j)) [
    | inl hit ↦ rw hit (new hit)
    | inr miss ↦ rw miss h
  ]

  expire_new-Lasts :
      (at : ℕ) (rs : List Row) (e : Entry Set) → until ≤ at → Lasts e → Lasts (expire_new at rs e)
  expire_new-Lasts at [] e late h = h
  expire_new-Lasts at (row ∷ rest) e late h = first_expiry-NotBefore until at e.expires late h

  expire-Lasts :
      (clock life : ℕ) (k j : Key) (boards : Boards Set)
      → (eq_key k j ≡ true → Late clock life)
      → Lasts (boards j)
      → Lasts (expire r clock life k boards j)
  unfolding expire
  expire-Lasts clock life k j boards late h = elim (Bool-cases (life == 0)) [
    | inl zero_ ↦ rw zero_ h
    | inr more ↦ rw more (
        modify-Lasts k j (λ e. expire_new (clock + life) (rows e.set) e) boards
          (λ hit. elim (late hit) [
            | inl no_ ↦ (let c : (life == 0) ≡ true = ground arith in cc (c, more))
            | inr at ↦ expire_new-Lasts (clock + life) (rows (boards j).set) (boards j) at h
          ])
          h)
  ]

  write-Lasts :
      (g t : Key) (m : ℕ) (points : ℤ) (o : Option ℤ) (boards : Boards Set) (j : Key)
      → Lasts (boards j)
      → Lasts (write r g t m points o boards j)
  unfolding write
  write-Lasts g t m points none boards j h = h
  write-Lasts g t m points (some d) boards j h =
      let one =
        modify-Lasts g j (λ e. record e { set = r.zadd m points e.set }) boards (λ hit. h) h in
      modify-Lasts t j (λ e. record e { set = r.zincrby m d e.set })
        (modify g (λ e. record e { set = r.zadd m points e.set }) boards) (λ hit. one) one

  place-Lasts :
      (clock life : ℕ) (g t : Key) (m : ℕ) (points : ℤ) (boards : Boards Set) (j : Key)
      → (eq_key g j ≡ true → Late clock life)
      → (eq_key t j ≡ true → Late clock life)
      → Lasts (boards j)
      → Lasts ((place r clock life g t m points boards).1 j)
  unfolding place
  place-Lasts clock life g t m points boards j own all h =
      let wrote = write r g t m points (improvement (zscore r m g boards) points) boards in
      expire-Lasts clock life t j (expire r clock life g wrote) all (
        expire-Lasts clock life g j wrote own
          (write-Lasts g t m points (improvement (zscore r m g boards) points) boards j h))

  -- No key of a bucket runs out before.
  abbrev pub Alive : Bucket → Boards Set → Type 0
  Alive x boards = (scope : Scope) → Lasts (boards (record { scope = scope; bucket = x }))

  -- A call at a time and for an instant: before keys of the bucket run out, those that it gives an
  -- expiry included.
  abbrev pub InTime : Calendar → Bucket → ℕ → Time → Type 0
  InTime c x clock at =
      (clock < until) × ((p : Period) → eq_bucket (bucket c p at) x ≡ true → Late clock (ttl p))

  place_all-Alive :
      (c : Calendar) (x : Bucket) (clock : ℕ) (slug : Slug) (m : ℕ) (points : ℤ) (at : Time)
      (ps : List Period) (boards : Boards Set)
      → InTime c x clock at
      → Alive x boards
      → Alive x (place_all r c clock slug m points at ps boards).1
  unfolding place_all key
  place_all-Alive c x clock slug m points at [] boards timely h = h
  place_all-Alive c x clock slug m points at (p ∷ ps) boards timely h =
      let g = key c (scope_of slug) p at in
      let t = key c global p at in
      place_all-Alive c x clock slug m points at ps (place r clock (ttl p) g t m points boards).1
        timely
        (λ scope.
          place-Lasts clock (ttl p) g t m points boards (record { scope = scope; bucket = x })
            (λ hit. timely.1 p (eq_key-bucket (scope_of slug) scope (bucket c p at) x hit))
            (λ hit. timely.1 p (eq_key-bucket global scope (bucket c p at) x hit)) (h scope))

  -- Then Redis has dropped no key of the bucket.
  pub live-entry :
      (x : Bucket) (clock : ℕ) (boards : Boards Set) (scope : Scope)
      → clock < until
      → Alive x boards
      → live r clock boards (record { scope = scope; bucket = x })
        ≡ boards (record { scope = scope; bucket = x })
  unfolding live
  live-entry x clock boards scope early h =
      let e = boards (record { scope = scope; bucket = x }) in
      rw (is_gone-NotBefore until clock e.expires early (h scope)) refl

  live-Alive :
      (x : Bucket) (clock : ℕ) (boards : Boards Set)
      → clock < until
      → Alive x boards
      → Alive x (live r clock boards)
  unfolding live
  live-Alive x clock boards early h scope =
      let e = boards (record { scope = scope; bucket = x }) in
      rw (is_gone-NotBefore until clock e.expires early (h scope)) (h scope)

  pub submit-Alive :
      (c : Calendar) (x : Bucket) (call : Call) (clock : ℕ) (now : Time) (user : ℕ) (slug : Slug)
      (points : ℤ) (at : Option Time) (boards : Boards Set)
      → InTime c x clock (at_or r now at)
      → Alive x boards
      → Alive x (submit r c call clock now user slug points at boards).1
  unfolding submit
  submit-Alive c x call clock now user slug points at boards timely h = by_call call
    where
      ran :
          Alive x
            (place_all r c clock slug user points (at_or r now at) periods (live r clock boards)).1
      ran =
          place_all-Alive c x clock slug user points (at_or r now at) periods (live r clock boards)
            timely (live-Alive x clock boards timely.0 h)

      by_call :
          (call : Call)
          → Alive x
              (delivered r call
                (place_all r c clock slug user points
                  (at_or r now at)
                  periods
                  (live r clock boards))
                boards).1
      by_call answered = ran
      by_call lost = ran
      by_call refused = h
