-- ===== src/Games/Float64.antt =====
-- The float64 operations that the points use, with what IEEE 754 says of them: exact on integers
-- up to 2^53, monotone under correct rounding, and no order with a NaN (`leb x x` is false there).
use podium.Base.{◌≤◌, ◌^◌, ◌≡◌, Bool, true, false}
use podium.Base.Int.{ℤ, pos, negsuc, pos_part, neg_part, eq_int, ◌≤ℤ◌, ◌-ℤ◌}

-- An integer that a float64 holds exactly.
abbrev pub IsExact : ℤ → Type 0
IsExact a = (pos_part a ≤ 2 ^ 53) × (neg_part a ≤ 2 ^ 53)

pub record Float64 : Type 1 where
  pub Float : Type 0
  pub of_int : ℤ → Float
  pub sub : Float → Float → Float
  pub mul : Float → Float → Float
  pub div : Float → Float → Float
  pub lt : Float → Float → Bool
  pub leb : Float → Float → Bool
  pub eqb : Float → Float → Bool
  pub to_int : Float → ℤ
  pub eqb_of_int : (a b : ℤ) → IsExact a → IsExact b → eqb (of_int a) (of_int b) ≡ eq_int a b
  pub leb_of_int : (a b : ℤ) → IsExact a → IsExact b → a ≤ℤ b → leb (of_int a) (of_int b) ≡ true
  pub leb_of_not_lt :
      (x y : Float) → leb x x ≡ true → leb y y ≡ true → lt x y ≡ false → leb y x ≡ true
  pub not_lt_of_leb : (x y : Float) → leb x y ≡ true → lt y x ≡ false
  pub leb_self : (x y : Float) → leb x y ≡ true → (leb x x ≡ true) × (leb y y ≡ true)
  pub leb_trans : (x y z : Float) → leb x y ≡ true → leb y z ≡ true → leb x z ≡ true
  pub lt→leb : (x y : Float) → lt x y ≡ true → leb x y ≡ true
  pub sub_of_int :
      (a b : ℤ)
      → IsExact a
      → IsExact b
      → IsExact (a -ℤ b)
      → sub (of_int a) (of_int b) ≡ of_int (a -ℤ b)
  pub sub_mono :
      (c : ℤ) (x y : Float)
      → IsExact c
      → leb x y ≡ true
      → leb (sub x (of_int c)) (sub y (of_int c)) ≡ true
  pub mul_mono :
      (k : ℤ) (x y : Float)
      → IsExact k
      → pos 1 ≤ℤ k
      → leb x y ≡ true
      → leb (mul (of_int k) x) (mul (of_int k) y) ≡ true
  pub div_mono :
      (k : ℤ) (x y : Float)
      → IsExact k
      → pos 1 ≤ℤ k
      → leb x y ≡ true
      → leb (div x (of_int k)) (div y (of_int k)) ≡ true
  pub div_anti :
      (k : ℤ) (x y : Float)
      → IsExact k
      → k ≤ℤ negsuc 0
      → leb x y ≡ true
      → leb (div y (of_int k)) (div x (of_int k)) ≡ true
  pub to_int_of_int : (a : ℤ) → IsExact a → to_int (of_int a) ≡ a
  pub to_int_mono :
      (a b : ℤ) (x y : Float)
      → IsExact a
      → IsExact b
      → leb (of_int a) x ≡ true
      → leb x y ≡ true
      → leb y (of_int b) ≡ true
      → to_int x ≤ℤ to_int y
