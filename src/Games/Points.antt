-- ===== src/Games/Points.antt =====
-- internal/games/games.go: `scale` and `Definition.Points`, over the float64 of `Float64`.
use podium.Base.{ℕ, ◌⊎◌, ◌≤◌, ◌<◌, ◌≡◌, inl, inr, true, false, arith, if◌then◌else◌, Bool-cases}
use podium.Base.Int.{ℤ, pos, negsuc, eq_int, ◌≤ℤ◌, ◌-ℤ◌}
use podium.Games.Float64.{Float64, IsExact}

abbrev pub max_points : ℕ
max_points = 10000

gap_up :
    (worst best : ℕ)
    → worst < best
    → best ≤ 10000
    → IsExact (pos best -ℤ pos worst) × (pos 1 ≤ℤ pos best -ℤ pos worst)
unfolding ◌-ℤ◌
gap_up worst best h top = ground arith

gap_down :
    (worst best : ℕ)
    → best < worst
    → worst ≤ 10000
    → IsExact (pos best -ℤ pos worst) × (pos best -ℤ pos worst ≤ℤ negsuc 0)
unfolding ◌-ℤ◌
gap_down worst best h top = ground arith

module _ (f : Float64) where
  open f use {Float, of_int, sub, mul, div, lt, leb, eqb, to_int}

  unfoldable pub scale : Float → Float → Float → Float
  scale raw worst best =
      if eqb worst best
      then of_int (pos 0)
      else div (mul (of_int (pos max_points)) (sub raw worst)) (sub best worst)

  -- What `Points` does with the value of a game's own function.
  unfoldable pub clamp : Float → ℤ
  clamp points =
      if lt points (of_int (pos 0))
      then pos 0
      else if lt (of_int (pos max_points)) points
      then pos max_points
      else to_int points

  IsExact-small : (n : ℕ) → n ≤ 10000 → IsExact (pos n)
  IsExact-small n h = omega arith

  -- Inside the scale the value is truncated between two whole numbers.
  to_int_inner :
      (x y : Float)
      → leb (of_int (pos 0)) x ≡ true
      → leb x y ≡ true
      → leb y (of_int (pos 10000)) ≡ true
      → to_int x ≤ℤ to_int y
  to_int_inner x y low le high =
      f.to_int_mono (pos 0) (pos 10000) x y (IsExact-small 0 (omega arith))
        (IsExact-small 10000 (omega arith)) low le high

  exact_le : (a b : ℕ) → a ≤ b → b ≤ 10000 → leb (of_int (pos a)) (of_int (pos b)) ≡ true
  exact_le a b h k =
      f.leb_of_int (pos a) (pos b) (IsExact-small a (omega arith)) (IsExact-small b k) (omega arith)

  zero_number : leb (of_int (pos 0)) (of_int (pos 0)) ≡ true
  zero_number = exact_le 0 0 (omega arith) (omega arith)

  top_number : leb (of_int (pos 10000)) (of_int (pos 10000)) ≡ true
  top_number = exact_le 10000 10000 (omega arith) (omega arith)

  -- The three cases of the switch, for a value that is a number.
  abbrev Clamped : Float → ℤ → Type 0
  Clamped x p =
      ((lt x (of_int (pos 0)) ≡ true) × (p ≡ pos 0))
      ⊎ ((lt (of_int (pos 10000)) x ≡ true) × (p ≡ pos 10000))
      ⊎ ((leb (of_int (pos 0)) x ≡ true) × (leb x (of_int (pos 10000)) ≡ true) × (p ≡ to_int x))

  clamp-Clamped : (x : Float) → leb x x ≡ true → Clamped x (clamp x)
  unfolding clamp
  clamp-Clamped x number = elim (Bool-cases (lt x (of_int (pos 0)))) [
    | inl under ↦ inl (under, rw under)
    | inr low ↦ elim (Bool-cases (lt (of_int (pos 10000)) x)) [
      | inl over ↦ inr (inl (over, rw (low, over)))
      | inr high ↦ inr (
          inr (
            f.leb_of_not_lt x (of_int (pos 0)) number zero_number low,
            f.leb_of_not_lt (of_int (pos 10000)) x top_number number high,
            rw (low, high),
          ))
    ]
  ]

  inner_range :
      (x : Float)
      → leb (of_int (pos 0)) x ≡ true
      → leb x (of_int (pos 10000)) ≡ true
      → (pos 0 ≤ℤ to_int x) × (to_int x ≤ℤ pos 10000)
  inner_range x low high =
      let number = (f.leb_self (of_int (pos 0)) x low).1 in
      let below = to_int_inner (of_int (pos 0)) x zero_number low high in
      let above = to_int_inner x (of_int (pos 10000)) low high top_number in
      (
        rw (f.to_int_of_int (pos 0) (IsExact-small 0 (omega arith))) at below,
        rw (f.to_int_of_int (pos 10000) (IsExact-small 10000 (omega arith))) at above,
      )

  -- Points lie between 0 and 10,000 for every value that is a number.
  pub clamp_range : (x : Float) → leb x x ≡ true → (pos 0 ≤ℤ clamp x) × (clamp x ≤ℤ pos 10000)
  clamp_range x number = elim (clamp-Clamped x number) [
    | inl (_, e) ↦ rw e (omega arith)
    | inr (inl (_, e)) ↦ rw e (omega arith)
    | inr (inr (low, high, e)) ↦ rw e (inner_range x low high)
  ]

  -- No value is over the top and at most the top.
  never_over :
      (x : Float) → lt (of_int (pos 10000)) x ≡ true → leb x (of_int (pos 10000)) ≡ true → ⊥
  never_over x over le = cc (f.not_lt_of_leb x (of_int (pos 10000)) le)

  never_under : (y : Float) → lt y (of_int (pos 0)) ≡ true → leb (of_int (pos 0)) y ≡ true → ⊥
  never_under y under le = cc (f.not_lt_of_leb (of_int (pos 0)) y le)

  clamp_mono_cases :
      (x y : Float) (p q : ℤ)
      → leb x y ≡ true
      → Clamped x p
      → Clamped y q
      → (pos 0 ≤ℤ q)
      → (p ≤ℤ pos 10000)
      → p ≤ℤ q
  clamp_mono_cases x y p q h (inl (_, e)) d lo hi = rw e lo
  clamp_mono_cases x y p q h (inr (inl (over, e))) (inl (under, _)) lo hi = absurd (
      never_over x over (
        f.leb_trans x y _ h (
          f.leb_trans y (of_int (pos 0)) _ (f.lt→leb y (of_int (pos 0)) under)
            (exact_le 0 10000 (omega arith) (omega arith)))))
  clamp_mono_cases x y p q h (inr (inl (over, e))) (inr (inl (_, e'))) lo hi = rw e' hi
  clamp_mono_cases x y p q h (inr (inl (over, e))) (inr (inr (_, high, e'))) lo hi =
      absurd (never_over x over (f.leb_trans x y _ h high))
  clamp_mono_cases x y p q h (inr (inr (low, high, e))) (inl (under, e')) lo hi =
      absurd (never_under y under (f.leb_trans (of_int (pos 0)) x y low h))
  clamp_mono_cases x y p q h (inr (inr (low, high, e))) (inr (inl (_, e'))) lo hi = rw e' hi
  clamp_mono_cases x y p q h (inr (inr (low, high, e))) (inr (inr (low', high', e'))) lo hi =
      rw (e, e') (to_int_inner x y low h high')

  -- A value that is at least as large earns at least as many points.
  pub clamp_mono : (x y : Float) → leb x y ≡ true → clamp x ≤ℤ clamp y
  clamp_mono x y h =
      let (nx, ny) = f.leb_self x y h in
      clamp_mono_cases x y (clamp x) (clamp y) h (clamp-Clamped x nx) (clamp-Clamped y ny)
        (clamp_range y ny).0 (clamp_range x nx).1

  scale_apart :
      (raw : Float) (worst best : ℤ)
      → IsExact worst
      → IsExact best
      → eq_int worst best ≡ false
      → IsExact (best -ℤ worst)
      → scale raw (of_int worst) (of_int best)
        ≡ div (mul (of_int (pos 10000)) (sub raw (of_int worst))) (of_int (best -ℤ worst))
  unfolding scale
  scale_apart raw worst best w b ne d =
      rw (f.eqb_of_int worst best w b, ne, f.sub_of_int best worst b w d)

  times_points :
      (x y : Float)
      → leb x y ≡ true
      → leb (mul (of_int (pos 10000)) x) (mul (of_int (pos 10000)) y) ≡ true
  times_points x y h =
      f.mul_mono (pos 10000) x y (IsExact-small 10000 (omega arith)) (omega arith) h

  -- A scale up to a larger best value keeps the order of raw values.
  pub scale_mono :
      (worst best : ℕ) (x y : Float)
      → worst < best
      → best ≤ 10000
      → leb x y ≡ true
      → leb
          (scale x (of_int (pos worst)) (of_int (pos best)))
          (scale y (of_int (pos worst)) (of_int (pos best)))
        ≡ true
  scale_mono worst best x y apart top h =
      let w = IsExact-small worst (omega arith) in
      let b = IsExact-small best (omega arith) in
      let (d, up) = gap_up worst best apart top in
      rw
        (
          scale_apart x (pos worst) (pos best) w b (ground arith) d,
          scale_apart y (pos worst) (pos best) w b (ground arith) d,
        )
        (f.div_mono _ _ _ d up (times_points _ _ (f.sub_mono (pos worst) x y w h)))

  -- A scale down to a smaller best value turns it around.
  pub scale_anti :
      (worst best : ℕ) (x y : Float)
      → best < worst
      → worst ≤ 10000
      → leb x y ≡ true
      → leb
          (scale y (of_int (pos worst)) (of_int (pos best)))
          (scale x (of_int (pos worst)) (of_int (pos best)))
        ≡ true
  scale_anti worst best x y apart top h =
      let w = IsExact-small worst (omega arith) in
      let b = IsExact-small best (omega arith) in
      let (d, down) = gap_down worst best apart top in
      rw
        (
          scale_apart x (pos worst) (pos best) w b (ground arith) d,
          scale_apart y (pos worst) (pos best) w b (ground arith) d,
        )
        (f.div_anti _ _ _ d down (times_points _ _ (f.sub_mono (pos worst) x y w h)))
