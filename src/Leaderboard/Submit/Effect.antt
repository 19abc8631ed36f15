-- ===== src/Leaderboard/Submit/Effect.antt =====
-- internal/leaderboard/lua/submit.lua: what one turn of the loop does to the scores of the boards.
use podium.Base.{
  ℕ, ◌+◌, ◌≡◌, refl, sym, ap, ◌∙◌, ◌⊎◌, inl, inr, true, false, Option, none, some, List, [], ◌∷◌,
  arith, ◌==◌, if◌then◌else◌, Bool-cases,
}
use podium.Base.Int.{ℤ, pos, ltb_ℤ, ◌+ℤ◌, ◌-ℤ◌}
use podium.Leaderboard.Keys.{Key, eq_key}
use podium.Leaderboard.Keys.Names.{eq_key_sound, eq_key_refl}
use podium.Leaderboard.Redis.{SortedSets, Row, row_score, or_zero, Entry, Boards, expire_new}
use podium.Leaderboard.Submit.{improvement, zscore, expire, write, place}

-- A user's best once a score is recorded.
abbrev pub better : Option ℤ → ℤ → Option ℤ
better none points = some points
better (some previous) points = some (if ltb_ℤ previous points then points else previous)

-- The best moves by what the score added.
pub or_zero-better :
    (o : Option ℤ) (points : ℤ)
    → or_zero (better o points) ≡ or_zero o +ℤ or_zero (improvement o points)
unfolding improvement ◌+ℤ◌ ◌-ℤ◌
or_zero-better none points = ground arith
or_zero-better (some previous) points = ground arith

pub +ℤ_zero : (a : ℤ) → a +ℤ pos 0 ≡ a
unfolding ◌+ℤ◌
+ℤ_zero a = ground arith

pub eq_key_comm : (a b : Key) → eq_key a b ≡ false → eq_key b a ≡ false
eq_key_comm a b e = elim (Bool-cases (eq_key b a)) [
  | inl same ↦ cc (e, eq_key_sound b a same, eq_key_refl a)
  | inr other ↦ other
]

expire_new-set :
    {S : Type 0} (at : ℕ) (rows : List Row) (e : Entry S) → (expire_new at rows e).set ≡ e.set
expire_new-set at [] e = refl
expire_new-set at (row ∷ rest) e = refl

module _ (r : SortedSets) where
  open r use {Set, rows, zadd, zincrby}

  expire-zscore :
      (clock life n : ℕ) (j k : Key) (boards : Boards Set)
      → zscore r n k (expire r clock life j boards) ≡ zscore r n k boards
  unfolding expire
  expire-zscore clock life n j k boards = elim (Bool-cases (life == 0)) [
    | inl ever ↦ rw ever refl
    | inr some_time ↦ rw some_time (elim (Bool-cases (eq_key j k)) [
      | inl same ↦ rw same (
          ap (λ s. row_score n (rows s))
            (expire_new-set (clock + life) (rows (boards k).set) (boards k)))
      | inr other ↦ rw other refl
    ])
  ]

  module _ (g t : Key) (apart : eq_key g t ≡ false) (m : ℕ) (points : ℤ) (boards : Boards Set) where
    write-other :
        (n : ℕ) (k : Key) (d : Option ℤ)
        → eq_key g k ≡ false
        → eq_key t k ≡ false
        → zscore r n k (write r g t m points d boards) ≡ zscore r n k boards
    unfolding write
    write-other n k none a b = refl
    write-other n k (some d) a b = rw (b, a) refl

    write-game :
        (n : ℕ) (d : ℤ)
        → zscore r n g (write r g t m points (some d) boards)
          ≡ (if m == n then some points else zscore r n g boards)
    unfolding write
    write-game n d =
        rw (eq_key_comm g t apart, eq_key_refl g) (r.score-zadd m n points (boards g).set)

    write-global :
        (n : ℕ) (d : ℤ)
        → zscore r n t (write r g t m points (some d) boards)
          ≡ (if m == n then some (or_zero (zscore r m t boards) +ℤ d) else zscore r n t boards)
    unfolding write
    write-global n d = rw (eq_key_refl t, apart) (r.score-zincrby m n d (boards t).set)

    improved-game :
        (n : ℕ) (o : Option ℤ)
        → zscore r m g boards ≡ o
        → zscore r n g (write r g t m points (improvement o points) boards)
          ≡ (if m == n then better o points else zscore r n g boards)
    unfolding improvement write
    improved-game n none e = write-game n points
    improved-game n (some previous) e = elim (Bool-cases (ltb_ℤ previous points)) [
      | inl more ↦ rw more (write-game n (points -ℤ previous))
      | inr less ↦ rw less (unchanged (Bool-cases (m == n)))
    ]
      where
        unchanged :
            ((m == n) ≡ true) ⊎ ((m == n) ≡ false)
            → zscore r n g (write r g t m points none boards)
              ≡ (if m == n then some previous else zscore r n g boards)
        unchanged (inl same) =
            let one : n ≡ m = ground arith in rw same (ap (λ (i : ℕ). zscore r i g boards) one ∙ e)
        unchanged (inr other) = rw other refl

    improved-global :
        (n : ℕ) (d : Option ℤ)
        → or_zero (zscore r n t (write r g t m points d boards))
          ≡ or_zero (zscore r n t boards) +ℤ (if m == n then or_zero d else pos 0)
    unfolding write
    improved-global n none = elim (Bool-cases (m == n)) [
      | inl same ↦ rw same (sym (+ℤ_zero (or_zero (zscore r n t boards))))
      | inr other ↦ rw other (sym (+ℤ_zero (or_zero (zscore r n t boards))))
    ]
    improved-global n (some d) = elim (Bool-cases (m == n)) [
      | inl same ↦
          let one : m ≡ n = ground arith in
          rw (write-global n d, same) (ap (λ (i : ℕ). or_zero (zscore r i t boards) +ℤ d) one)
      | inr other ↦ rw (write-global n d, other) (sym (+ℤ_zero (or_zero (zscore r n t boards))))
    ]

    -- One turn of the loop: the game's board holds the better of two scores, the total moves by
    -- the difference, and no other key changes.
    module _ (clock life : ℕ) where
      pub place-game :
          (n : ℕ)
          → zscore r n g (place r clock life g t m points boards).1
            ≡ (if m == n then better (zscore r m g boards) points else zscore r n g boards)
      unfolding place
      place-game n =
          let d = improvement (zscore r m g boards) points in
          let written = write r g t m points d boards in
          expire-zscore clock life n t g (expire r clock life g written)
          ∙ expire-zscore clock life n g g written
          ∙ improved-game n (zscore r m g boards) refl

      pub place-global :
          (n : ℕ)
          → or_zero (zscore r n t (place r clock life g t m points boards).1)
            ≡ or_zero (zscore r n t boards)
              +ℤ (if m == n then or_zero (improvement (zscore r m g boards) points) else pos 0)
      unfolding place
      place-global n =
          let d = improvement (zscore r m g boards) points in
          let written = write r g t m points d boards in
          ap or_zero (
            expire-zscore clock life n t t (expire r clock life g written)
            ∙ expire-zscore clock life n g t written)
          ∙ improved-global n d

      pub place-other :
          (n : ℕ) (k : Key)
          → eq_key g k ≡ false
          → eq_key t k ≡ false
          → zscore r n k (place r clock life g t m points boards).1 ≡ zscore r n k boards
      unfolding place
      place-other n k a b =
          let d = improvement (zscore r m g boards) points in
          let written = write r g t m points d boards in
          expire-zscore clock life n t k (expire r clock life g written)
          ∙ expire-zscore clock life n g k written
          ∙ write-other n k d a b
