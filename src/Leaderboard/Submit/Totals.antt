-- ===== src/Leaderboard/Submit/Totals.antt =====
-- internal/leaderboard/lua/submit.lua: the cross-game board and the boards of the games.
use text.Mathlib.Text.{◌==◌ as str_eq}
use text.Mathlib.TextEquality.{eq_iff}
use text.Mathlib.TextPositions.{eq_refl}
use podium.Base.{
  ℕ, ◌<◌, ◌≡◌, refl, sym, ap, ◌∙◌, ◌⊎◌, inl, inr, true, false, Option, List, [], ◌∷◌, arith, ◌==◌,
  if◌then◌else◌, Bool-cases, subst,
}
use podium.Base.Int.{ℤ, pos, ◌+ℤ◌, int_laws}
use podium.Games.Common.{Time}
use podium.Games.Registry.{Slug}
use podium.Leaderboard.Keys.{
  Period, ttl, Calendar, Bucket, periods, bucket, eq_bucket, Scope, global, game, eq_scope,
  scope_of, Key, key, eq_key,
}
use podium.Leaderboard.Keys.Names.{eq_bucket_sound}
use podium.Leaderboard.Redis.{SortedSets, Entry, row_score, or_zero, Boards}
use podium.Leaderboard.Submit.Lasting.{Alive, InTime, live-entry, submit-Alive}
use podium.Leaderboard.Submit.{
  Call, answered, lost, refused, improvement, no_boards, zscore, at_or, delivered, place, place_all,
  submit, live,
}
use podium.Leaderboard.Submit.Effect.{
  better, or_zero-better, +ℤ_zero, place-game, place-global, place-other,
}

abbrev pub board_key : Scope → Bucket → Key
board_key scope x = record { scope = scope; bucket = x }

-- The sum over games.
unfoldable pub total : (Slug → ℤ) → List Slug → ℤ
total f [] = pos 0
total f (s ∷ ss) = f s +ℤ total f ss

abbrev pub Absent : Slug → List Slug → Type 0
Absent slug [] = Unit {0}
Absent slug (s ∷ ss) = (str_eq s slug ≡ false) × Absent slug ss

-- A slug that a list has exactly once.
abbrev pub Once : Slug → List Slug → Type 0
Once slug [] = ⊥
Once slug (s ∷ ss) =
    ((str_eq s slug ≡ true) × Absent slug ss) ⊎ ((str_eq s slug ≡ false) × Once slug ss)

pub total-eq :
    (f h : Slug → ℤ) (ss : List Slug) → ((s : Slug) → f s ≡ h s) → total f ss ≡ total h ss
unfolding total
total-eq f h [] e = refl
total-eq f h (s ∷ ss) e = rw (e s, total-eq f h ss e) refl

pub total-zero : (f : Slug → ℤ) (ss : List Slug) → ((s : Slug) → f s ≡ pos 0) → total f ss ≡ pos 0
unfolding total ◌+ℤ◌
total-zero f [] z = refl
total-zero f (s ∷ ss) z = rw (z s, total-zero f ss z) refl

total-Absent :
    (f h : Slug → ℤ) (slug : Slug) (ss : List Slug)
    → ((s : Slug) → str_eq s slug ≡ false → h s ≡ f s)
    → Absent slug ss
    → total h ss ≡ total f ss
unfolding total
total-Absent f h slug [] other a = refl
total-Absent f h slug (s ∷ ss) other a = rw (other s a.0, total-Absent f h slug ss other a.1) refl

-- A change of one game's value moves the sum by as much.
pub total-Once :
    (f h : Slug → ℤ) (slug : Slug) (d : ℤ) (ss : List Slug)
    → ((s : Slug) → str_eq s slug ≡ true → h s ≡ f s +ℤ d)
    → ((s : Slug) → str_eq s slug ≡ false → h s ≡ f s)
    → Once slug ss
    → total h ss ≡ total f ss +ℤ d
unfolding total
total-Once f h slug d [] same other once = absurd once
total-Once f h slug d (s ∷ ss) same other (inl (hit, absent)) =
    let rest = total-Absent f h slug ss other absent in rw (same s hit, rest) (omega int_laws)
total-Once f h slug d (s ∷ ss) same other (inr (miss, once)) =
    let rest = total-Once f h slug d ss same other once in rw (other s miss, rest) (omega int_laws)

pub other_bucket :
    (s t : Scope) (b x : Bucket)
    → eq_bucket b x ≡ false
    → eq_key (board_key s b) (board_key t x) ≡ false
unfolding eq_key
other_bucket s t b x miss = elim (Bool-cases (eq_scope s t)) [
  | inl same ↦ rw (same, miss) refl
  | inr other ↦ rw other refl
]

pub other_scope :
    (s t : Scope) (b x : Bucket)
    → eq_scope s t ≡ false
    → eq_key (board_key s b) (board_key t x) ≡ false
unfolding eq_key
other_scope s t b x miss = rw miss refl

pub str_eq_comm : (s t : Slug) → str_eq s t ≡ false → str_eq t s ≡ false
str_eq_comm s t e = elim (Bool-cases (str_eq t s)) [
  | inl same ↦ cc (e, (eq_iff t s).0 same, eq_refl t)
  | inr other ↦ other
]

module _ (r : SortedSets) (slugs : List Slug) where
  open r use {Set}

  -- On a bucket the cross-game score of every user is the sum of the game scores.
  abbrev pub Consistent : Bucket → Boards Set → Type 0
  Consistent x boards =
      (n : ℕ)
      → or_zero (zscore r n (board_key global x) boards)
        ≡ total (λ s. or_zero (zscore r n (board_key (game s) x) boards)) slugs

  module _ (slug : Slug) (once : Once slug slugs) (clock life m : ℕ) (points : ℤ) (b : Bucket) where
    abbrev placed : Boards Set → Boards Set
    placed boards =
        (place r clock life (board_key (game slug) b) (board_key global b) m points boards).1

    abbrev g : Key
    g = board_key (game slug) b

    abbrev t : Key
    t = board_key global b

    apart : eq_key g t ≡ false
    unfolding eq_key
    apart = refl

    elsewhere :
        (boards : Boards Set) (n : ℕ) (scope : Scope) (x : Bucket)
        → eq_bucket b x ≡ false
        → zscore r n (board_key scope x) (placed boards) ≡ zscore r n (board_key scope x) boards
    elsewhere boards n scope x miss =
        place-other r g t (apart) m points boards clock life n (board_key scope x)
          (other_bucket (game slug) scope b x miss) (other_bucket global scope b x miss)

    moved : Boards Set → ℕ → ℤ
    moved boards n = if m == n then or_zero (improvement (zscore r m g boards) points) else pos 0

    own_game :
        (boards : Boards Set) (n : ℕ) (s : Slug)
        → str_eq s slug ≡ true
        → or_zero (zscore r n (board_key (game s) b) (placed boards))
          ≡ or_zero (zscore r n (board_key (game s) b) boards) +ℤ moved boards n
    unfolding moved
    own_game boards n s hit =
        let same : slug ≡ s = sym ((eq_iff s slug).0 hit) in
        subst
          (λ (q : Slug).
            or_zero (zscore r n (board_key (game q) b) (placed boards))
            ≡ or_zero (zscore r n (board_key (game q) b) boards) +ℤ moved boards n)
          same
          (ap or_zero (place-game r g t apart m points boards clock life n)
            ∙ on_user (Bool-cases (m == n)))
      where
        on_user :
            ((m == n) ≡ true) ⊎ ((m == n) ≡ false)
            → or_zero (if m == n then better (zscore r m g boards) points else zscore r n g boards)
              ≡ or_zero (zscore r n g boards) +ℤ moved boards n
        on_user (inl same) =
            let one : m ≡ n = ground arith in
            rw same (
              or_zero-better (zscore r m g boards) points
              ∙ ap
                  (λ (i : ℕ).
                    or_zero (zscore r i g boards)
                    +ℤ or_zero (improvement (zscore r m g boards) points))
                  one)
        on_user (inr other) = rw other (sym (+ℤ_zero (or_zero (zscore r n g boards))))

    other_game :
        (boards : Boards Set) (n : ℕ) (s : Slug)
        → str_eq s slug ≡ false
        → or_zero (zscore r n (board_key (game s) b) (placed boards))
          ≡ or_zero (zscore r n (board_key (game s) b) boards)
    unfolding eq_scope
    other_game boards n s miss = ap or_zero (
        place-other r g t apart m points boards clock life n (board_key (game s) b)
          (other_scope (game slug) (game s) b b (str_eq_comm s slug miss))
          (other_scope global (game s) b b refl))

    pub place-Consistent :
        (x : Bucket) (boards : Boards Set) → Consistent x boards → Consistent x (placed boards)
    unfolding moved
    place-Consistent x boards held n = elim (Bool-cases (eq_bucket b x)) [
      | inl hit ↦
          subst
            (λ (y : Bucket).
              Consistent y boards
              → or_zero (zscore r n (board_key global y) (placed boards))
                ≡ total (λ s. or_zero (zscore r n (board_key (game s) y) (placed boards))) slugs)
            (eq_bucket_sound b x hit)
            (λ here.
              place-global r g t apart m points boards clock life n
              ∙ ap (λ (q : ℤ). q +ℤ moved boards n) (here n)
              ∙ sym (
                  total-Once (λ s. or_zero (zscore r n (board_key (game s) b) boards))
                    (λ s. or_zero (zscore r n (board_key (game s) b) (placed boards))) slug
                    (moved boards n) slugs (own_game boards n) (other_game boards n) once))
            held
      | inr miss ↦
          ap or_zero (elsewhere boards n global x miss)
          ∙ held n
          ∙ total-eq (λ s. or_zero (zscore r n (board_key (game s) x) boards))
              (λ s. or_zero (zscore r n (board_key (game s) x) (placed boards))) slugs
              (λ s. sym (ap or_zero (elsewhere boards n (game s) x miss)))
    ]

  -- A game of the list, whose slug is not the empty one of the cross-game scope.
  abbrev pub IsListed : Slug → Type 0
  IsListed slug = (str_eq slug "" ≡ false) × Once slug slugs

  place_all-Consistent :
      (c : Calendar) (clock : ℕ) (slug : Slug) (m : ℕ) (points : ℤ) (at : Time) (ps : List Period)
      (x : Bucket) (boards : Boards Set)
      → IsListed slug
      → Consistent x boards
      → Consistent x (place_all r c clock slug m points at ps boards).1
  unfolding place_all key scope_of
  place_all-Consistent c clock slug m points at [] x boards listed held = held
  place_all-Consistent c clock slug m points at (p ∷ ps) x boards (named, once) held =
      let one : Consistent x
          (place r clock (ttl p) (key c (scope_of slug) p at) (key c global p at) m points
            boards).1 =
        rw named
          (place-Consistent slug once clock (ttl p) m points (bucket c p at) x boards held) in
      place_all-Consistent c clock slug m points at ps x
        (place r clock (ttl p) (key c (scope_of slug) p at) (key c global p at) m points boards).1
        (named, once) one

-- A call of Board.Submit and what became of it.
pub record Submission : Type 0 where
  pub call : Call
  pub clock : ℕ
  pub now : Time
  pub user : ℕ
  pub slug : Slug
  pub points : ℤ
  pub at : Option Time

module _ (r : SortedSets) where
  open r use {Set}

  abbrev pub submit_one : Calendar → Submission → Boards Set → Boards Set
  submit_one c s boards = (submit r c s.call s.clock s.now s.user s.slug s.points s.at boards).1

  unfoldable pub submit_all : Calendar → List Submission → Boards Set → Boards Set
  submit_all c [] boards = boards
  submit_all c (s ∷ ss) boards = submit_all c ss (submit_one c s boards)

  -- Submissions that no key of a bucket runs out before.
  abbrev pub AllInTime : ℕ → Calendar → Bucket → List Submission → Type 0
  AllInTime until c x [] = Unit {0}
  AllInTime until c x (s ∷ ss) =
      InTime r until c x s.clock (at_or r s.now s.at) × AllInTime until c x ss

module _ (r : SortedSets) (slugs : List Slug) where
  open r use {Set}

  abbrev pub AllListed : List Submission → Type 0
  AllListed [] = Unit {0}
  AllListed (s ∷ ss) = IsListed r slugs s.slug × AllListed ss

  live-Consistent :
      (until : ℕ) (x : Bucket) (clock : ℕ) (boards : Boards Set)
      → clock < until
      → Alive r until x boards
      → Consistent r slugs x boards
      → Consistent r slugs x (live r clock boards)
  live-Consistent until x clock boards early alive held n =
      score_of global
      ∙ held n
      ∙ sym (
          total-eq (λ s. or_zero (zscore r n (board_key (game s) x) (live r clock boards)))
            (λ s. or_zero (zscore r n (board_key (game s) x) boards)) slugs
            (λ s. score_of (game s)))
    where
      score_of :
          (scope : Scope)
          → or_zero (zscore r n (board_key scope x) (live r clock boards))
            ≡ or_zero (zscore r n (board_key scope x) boards)
      score_of scope =
          ap (λ (e : Entry Set). or_zero (row_score n (r.rows e.set)))
            (live-entry r until x clock boards scope early alive)

  submit-Consistent :
      (c : Calendar) (until : ℕ) (x : Bucket) (s : Submission) (boards : Boards Set)
      → IsListed r slugs s.slug
      → s.clock < until
      → Alive r until x boards
      → Consistent r slugs x boards
      → Consistent r slugs x (submit_one r c s boards)
  unfolding submit
  submit-Consistent c until x s boards listed early alive held = by_call s.call
    where
      ran :
          Consistent r slugs x
            (place_all r c s.clock s.slug s.user s.points
              (at_or r s.now s.at)
              periods
              (live r s.clock boards)).1
      ran =
          place_all-Consistent r slugs c s.clock s.slug s.user s.points (at_or r s.now s.at) periods
            x (live r s.clock boards) listed
            (live-Consistent until x s.clock boards early alive held)

      by_call :
          (call : Call)
          → Consistent r slugs x
              (delivered r call
                (place_all r c s.clock s.slug s.user s.points
                  (at_or r s.now s.at)
                  periods
                  (live r s.clock boards))
                boards).1
      by_call answered = ran
      by_call lost = ran
      by_call refused = held

  submit_more-Consistent :
      (c : Calendar) (until : ℕ) (x : Bucket) (ss : List Submission) (boards : Boards Set)
      → AllListed ss
      → AllInTime r until c x ss
      → Alive r until x boards
      → Consistent r slugs x boards
      → Consistent r slugs x (submit_all r c ss boards)
  unfolding submit_all
  submit_more-Consistent c until x [] boards listed timely alive held = held
  submit_more-Consistent c until x (s ∷ ss) boards (one, rest) (now, timely) alive held =
      submit_more-Consistent c until x ss (submit_one r c s boards) rest timely
        (submit-Alive r until c x s.call s.clock s.now s.user s.slug s.points s.at boards now alive)
        (submit-Consistent c until x s boards one now.0 alive held)

  no_boards-Consistent : (x : Bucket) → Consistent r slugs x (no_boards r)
  unfolding row_score
  no_boards-Consistent x n = rw r.rows-empty (sym (total-zero (λ s. pos 0) slugs (λ s. refl)))

  -- From empty boards, whatever is submitted for the listed games, in whatever order and with
  -- whatever calls lost or refused: on a bucket the cross-game score of every user is the sum of the
  -- scores on the games' boards, as long as no key of the bucket runs out: every submission comes
  -- before some time `until`, and one that falls in the bucket at most the period's time to live
  -- before it. The board of all time has no time to live.
  pub submit_all-Consistent :
      (c : Calendar) (until : ℕ) (x : Bucket) (ss : List Submission)
      → AllListed ss
      → AllInTime r until c x ss
      → Consistent r slugs x (submit_all r c ss (no_boards r))
  submit_all-Consistent c until x ss listed timely =
      submit_more-Consistent c until x ss (no_boards r) listed timely (λ scope. tt)
        (no_boards-Consistent x)
