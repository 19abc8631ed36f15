-- ===== src/Tests/Floats.antt =====
-- An instance of the float64 operations of internal/games/games.go: the whole numbers, with
-- division cut off towards zero.
use podium.Base.{ℕ, suc, ◌+◌, ◌/◌, ◌≤◌, ◌≡◌, refl, Bool, true, arith, leb}
use podium.Base.Int.{ℤ, pos, negsuc, pos_part, neg_part, sub_ℕ, ◌-ℤ◌, ◌*ℤ◌, ◌≤ℤ◌, eq_int, ltb_ℤ}
use podium.Games.Float64.{Float64}
use native.Mathlib.Nat.{div-mul-le_self, le-div_iff_mul-le, mul-le-mul_left}

abbrev pub leb_ℤ : ℤ → ℤ → Bool
leb_ℤ a b = leb (pos_part a + neg_part b) (pos_part b + neg_part a)

pub leb_ℤ-≤ℤ : (a b : ℤ) → leb_ℤ a b ≡ true → a ≤ℤ b
leb_ℤ-≤ℤ a b h = ground arith

pub ≤ℤ-leb_ℤ : (a b : ℤ) → a ≤ℤ b → leb_ℤ a b ≡ true
≤ℤ-leb_ℤ a b h = ground arith

parts_mono : (a b : ℤ) → a ≤ℤ b → (pos_part a ≤ pos_part b) × (neg_part b ≤ neg_part a)
parts_mono a b h = ground arith

sub_ℕ_mono : (a b c d : ℕ) → a ≤ c → d ≤ b → sub_ℕ a b ≤ℤ sub_ℕ c d
sub_ℕ_mono a b c d h k = ground arith

abbrev pub quotient : ℤ → ℤ → ℤ
quotient a (pos k) = sub_ℕ (pos_part a / k) (neg_part a / k)
quotient a (negsuc k) = sub_ℕ (neg_part a / suc k) (pos_part a / suc k)

div_mono : (k a b : ℕ) → 1 ≤ k → a ≤ b → a / k ≤ b / k
div_mono k a b h le =
    let below = div-mul-le_self a k in
    (le-div_iff_mul-le {k = k} {x = a / k} {y = b} (omega arith)).1 (omega (arith, below))

pub quotient_mono : (k a b : ℤ) → pos 1 ≤ℤ k → a ≤ℤ b → quotient a k ≤ℤ quotient b k
quotient_mono (pos k) a b h le =
    let (up, down) = parts_mono a b le in
    sub_ℕ_mono _ _ _ _ (div_mono k _ _ (omega arith) up) (div_mono k _ _ (omega arith) down)
quotient_mono (negsuc k) a b h le = omega arith

pub quotient_anti : (k a b : ℤ) → k ≤ℤ negsuc 0 → a ≤ℤ b → quotient b k ≤ℤ quotient a k
quotient_anti (pos k) a b h le = omega arith
quotient_anti (negsuc k) a b h le =
    let (up, down) = parts_mono a b le in
    sub_ℕ_mono _ _ _ _ (div_mono (suc k) _ _ (omega arith) down)
      (div_mono (suc k) _ _ (omega arith) up)

pub times_mono : (k a b : ℤ) → pos 1 ≤ℤ k → a ≤ℤ b → k *ℤ a ≤ℤ k *ℤ b
unfolding ◌*ℤ◌
times_mono (pos k) a b h le =
    let (up, down) = parts_mono a b le in
    let p = mul-le-mul_left k up in
    let n = mul-le-mul_left k down in sub_ℕ_mono _ _ _ _ (omega (arith, p)) (omega (arith, n))
times_mono (negsuc k) a b h le = omega arith

pub minus_mono : (c a b : ℤ) → a ≤ℤ b → a -ℤ c ≤ℤ b -ℤ c
unfolding ◌-ℤ◌
minus_mono c a b le =
    let (up, down) = parts_mono a b le in sub_ℕ_mono _ _ _ _ (omega arith) (omega arith)

abbrev pub whole : Float64
whole = record {
  Float = ℤ;
  of_int = λ a. a;
  sub = ◌-ℤ◌;
  mul = ◌*ℤ◌;
  div = quotient;
  lt = ltb_ℤ;
  leb = leb_ℤ;
  eqb = eq_int;
  to_int = λ a. a;
  eqb_of_int = λ a b p q. refl;
  leb_of_int = λ a b p q h. ≤ℤ-leb_ℤ a b h;
  leb_of_not_lt = λ a b p q h. ≤ℤ-leb_ℤ b a (ground arith);
  not_lt_of_leb = λ a b h. (let le = leb_ℤ-≤ℤ a b h in ground arith);
  leb_self = λ a b h. (≤ℤ-leb_ℤ a a (omega arith), ≤ℤ-leb_ℤ b b (omega arith));
  leb_trans = λ a b c h k.
      (let le = leb_ℤ-≤ℤ a b h in let le' = leb_ℤ-≤ℤ b c k in ≤ℤ-leb_ℤ a c (omega arith));
  lt→leb = λ a b h. ≤ℤ-leb_ℤ a b (ground arith);
  sub_of_int = λ a b p q r. refl;
  sub_mono = λ c a b p h. ≤ℤ-leb_ℤ (a -ℤ c) (b -ℤ c) (minus_mono c a b (leb_ℤ-≤ℤ a b h));
  mul_mono = λ k a b p q h. ≤ℤ-leb_ℤ (k *ℤ a) (k *ℤ b) (times_mono k a b q (leb_ℤ-≤ℤ a b h));
  div_mono = λ k a b p q h.
      ≤ℤ-leb_ℤ (quotient a k) (quotient b k) (quotient_mono k a b q (leb_ℤ-≤ℤ a b h));
  div_anti = λ k a b p q h.
      ≤ℤ-leb_ℤ (quotient b k) (quotient a k) (quotient_anti k a b q (leb_ℤ-≤ℤ a b h));
  to_int_of_int = λ a p. refl;
  to_int_mono = λ a b x y p q low le high. leb_ℤ-≤ℤ x y le;
}
