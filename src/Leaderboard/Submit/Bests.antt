-- ===== src/Leaderboard/Submit/Bests.antt =====
-- internal/leaderboard/lua/submit.lua: a game's board holds every user's best score.
use text.Mathlib.Text.{◌==◌ as str_eq}
use text.Mathlib.TextEquality.{eq_iff}
use podium.Base.{
  ℕ, ◌<◌, ◌≡◌, refl, ap, ◌∙◌, ◌⊎◌, inl, inr, Bool, true, false, ◌&&◌, ◌||◌, Option, none, some,
  List, [], ◌∷◌, arith, ◌==◌, if◌then◌else◌, Bool-cases, subst,
}
use podium.Base.Int.{ℤ, ltb_ℤ, ◌≤ℤ◌}
use podium.Games.Common.{Time}
use podium.Games.Registry.{Slug}
use podium.Leaderboard.Keys.{
  Period, periods, ttl, Calendar, Bucket, bucket, eq_bucket, global, game, eq_scope, scope_of, key,
  eq_key,
}
use podium.Leaderboard.Keys.Names.{eq_bucket_sound}
use podium.Leaderboard.Redis.{SortedSets, Entry, row_score, Boards}
use podium.Leaderboard.Submit.Lasting.{Alive, live-entry, submit-Alive}
use podium.Leaderboard.Submit.{
  Call, answered, lost, refused, no_boards, zscore, at_or, delivered, place, place_all, submit,
  live,
}
use podium.Leaderboard.Submit.Effect.{better, place-game, place-other}
use podium.Leaderboard.Submit.Totals.{
  board_key, other_bucket, other_scope, Submission, submit_one, submit_all, AllInTime,
}

better_twice : (o : Option ℤ) (p : ℤ) → better (better o p) p ≡ better o p
better_twice none p = ground arith
better_twice (some q) p = ground arith

-- Whether an instant falls in a bucket of one of the periods.
unfoldable pub falls_in : Calendar → Bucket → Time → List Period → Bool
falls_in c x at [] = false
falls_in c x at (p ∷ ps) = eq_bucket (bucket c p at) x || falls_in c x at ps

abbrev pub has_run : Call → Bool
has_run answered = true
has_run lost = true
has_run refused = false

module _ (r : SortedSets) (c : Calendar) (g : Slug) (x : Bucket) (n : ℕ) where
  open r use {Set}

  abbrev score : Boards Set → Option ℤ
  score boards = zscore r n (board_key (game g) x) boards

  module _ (clock life : ℕ) (slug : Slug) (m : ℕ) (points : ℤ) (b : Bucket)
      (boards : Boards Set) where
    abbrev after : Boards Set
    after = (place r clock life (board_key (game slug) b) (board_key global b) m points boards).1

    apart : eq_key (board_key (game slug) b) (board_key global b) ≡ false
    unfolding eq_key eq_scope
    apart = refl

    on_user :
        (y : Slug)
        → slug ≡ y
        → zscore r n (board_key (game y) b) after ≡ (
            if m == n
            then better (zscore r n (board_key (game y) b) boards) points
            else zscore r n (board_key (game y) b) boards)
    on_user y same =
        subst
          (λ (q : Slug). zscore r n (board_key (game q) b) after ≡ (
            if m == n
            then better (zscore r n (board_key (game q) b) boards) points
            else zscore r n (board_key (game q) b) boards))
          same
          (place-game r (board_key (game slug) b) (board_key global b) apart m points boards clock
              life n
            ∙ own (Bool-cases (m == n)))
      where
        own :
            ((m == n) ≡ true) ⊎ ((m == n) ≡ false)
            → (if m == n
                then better (zscore r m (board_key (game slug) b) boards) points
                else zscore r n (board_key (game slug) b) boards)
              ≡ (if m == n
                  then better (zscore r n (board_key (game slug) b) boards) points
                  else zscore r n (board_key (game slug) b) boards)
        own (inl same) =
            let one : m ≡ n = ground arith in
            rw same
              (ap (λ (i : ℕ). better (zscore r i (board_key (game slug) b) boards) points) one)
        own (inr other) = rw other refl

    placed-score : score after ≡ (
        if eq_bucket b x && (str_eq slug g && (m == n))
        then better (score boards) points
        else score boards)
    unfolding eq_scope
    placed-score = elim (Bool-cases (eq_bucket b x)) [
      | inr miss ↦ rw miss (
          place-other r (board_key (game slug) b) (board_key global b) apart m points boards clock
            life n (board_key (game g) x) (other_bucket (game slug) (game g) b x miss)
            (other_bucket global (game g) b x miss))
      | inl hit ↦ elim (Bool-cases (str_eq slug g)) [
        | inr miss ↦
            rw (hit, miss)
              (place-other r (board_key (game slug) b) (board_key global b) apart m points boards
                clock life n (board_key (game g) x) (other_scope (game slug) (game g) b x miss)
                (other_scope global (game g) b x refl))
        | inl same ↦
            rw (hit, same)
              (subst
                (λ (y : Bucket). zscore r n (board_key (game g) y) after ≡ (
                  if m == n
                  then better (zscore r n (board_key (game g) y) boards) points
                  else zscore r n (board_key (game g) y) boards))
                (eq_bucket_sound b x hit) (on_user g ((eq_iff slug g).0 same)))
      ]
    ]

  place_all-score :
      (clock : ℕ) (slug : Slug) (m : ℕ) (points : ℤ) (at : Time) (ps : List Period)
      (boards : Boards Set)
      → str_eq slug "" ≡ false
      → score (place_all r c clock slug m points at ps boards).1 ≡ (
          if falls_in c x at ps && (str_eq slug g && (m == n))
          then better (score boards) points
          else score boards)
  unfolding place_all key scope_of falls_in
  place_all-score clock slug m points at [] boards named = refl
  place_all-score clock slug m points at (p ∷ ps) boards named =
      let next : Boards Set =
        (place r clock (ttl p) (key c (scope_of slug) p at) (key c global p at) m points
          boards).1 in
      let one : score next ≡ (
          if eq_bucket (bucket c p at) x && (str_eq slug g && (m == n))
          then better (score boards) points
          else score boards) =
        rw named (placed-score clock (ttl p) slug m points (bucket c p at) boards) in
      let rest = place_all-score clock slug m points at ps next named in
      rest
      ∙ twice (eq_bucket (bucket c p at) x) (falls_in c x at ps) (str_eq slug g && (m == n))
          (score next) one
    where
      twice :
          (a f u : Bool) (o : Option ℤ)
          → o ≡ (if a && u then better (score boards) points else score boards)
          → (if f && u then better o points else o)
            ≡ (if (a || f) && u then better (score boards) points else score boards)
      twice true true true o e = rw e (better_twice (score boards) points)
      twice true true false o e = e
      twice true false true o e = e
      twice true false false o e = e
      twice false true true o e = rw e refl
      twice false true false o e = e
      twice false false true o e = e
      twice false false false o e = e

  -- A submission that reached Redis, for the game and the user, with its instant in the bucket.
  unfoldable pub counts : Submission → Bool
  counts s =
      has_run s.call
      && (falls_in c x (at_or r s.now s.at) periods && (str_eq s.slug g && (s.user == n)))

  abbrev pub Named : List Submission → Type 0
  Named [] = Unit {0}
  Named (s ∷ ss) = (str_eq s.slug "" ≡ false) × Named ss

  pub submit-score :
      (until : ℕ) (s : Submission) (boards : Boards Set)
      → str_eq s.slug "" ≡ false
      → s.clock < until
      → Alive r until x boards
      → score (submit r c s.call s.clock s.now s.user s.slug s.points s.at boards).1
        ≡ (if counts s then better (score boards) s.points else score boards)
  unfolding submit counts
  submit-score until s boards named early alive = by_call s.call
    where
      now : Boards Set
      now = live r s.clock boards

      same : score now ≡ score boards
      same =
          ap (λ (e : Entry Set). row_score n (r.rows e.set))
            (live-entry r until x s.clock boards (game g) early alive)

      ran :
          score (place_all r c s.clock s.slug s.user s.points (at_or r s.now s.at) periods now).1
          ≡ (if falls_in c x (at_or r s.now s.at) periods && (str_eq s.slug g && (s.user == n))
              then better (score boards) s.points
              else score boards)
      ran =
          place_all-score s.clock s.slug s.user s.points (at_or r s.now s.at) periods now named
          ∙ ap
              (λ (o : Option ℤ).
                if falls_in c x (at_or r s.now s.at) periods && (str_eq s.slug g && (s.user == n))
                then better o s.points
                else o)
              same

      by_call :
          (call : Call)
          → score
              (delivered r call
                (place_all r c s.clock s.slug s.user s.points
                  (at_or r s.now s.at)
                  periods
                  (live r s.clock boards))
                boards).1
            ≡ (if has_run call
                  && (falls_in c x (at_or r s.now s.at) periods
                      && (str_eq s.slug g && (s.user == n)))
                then better (score boards) s.points
                else score boards)
      by_call answered = ran
      by_call lost = ran
      by_call refused = refl

  -- The points of the submissions that count, the latest first, in front of others.
  unfoldable pub earned : List ℤ → List Submission → List ℤ
  earned before [] = before
  earned before (s ∷ ss) = earned (if counts s then s.points ∷ before else before) ss

abbrev pub AllAtMost : ℤ → List ℤ → Type 0
AllAtMost b [] = Unit {0}
AllAtMost b (p ∷ ps) = (p ≤ℤ b) × AllAtMost b ps

abbrev pub AnyIs : ℤ → List ℤ → Type 0
AnyIs b [] = ⊥
AnyIs b (p ∷ ps) = (p ≡ b) ⊎ AnyIs b ps

-- `none` for no number, and else one of the numbers that none of them exceeds.
abbrev pub Greatest : List ℤ → Option ℤ → Type 0
Greatest [] o = o ≡ none
Greatest (p ∷ ps) none = ⊥
Greatest (p ∷ ps) (some b) = AllAtMost b (p ∷ ps) × AnyIs b (p ∷ ps)

AllAtMost-le : (a b : ℤ) (ps : List ℤ) → a ≤ℤ b → AllAtMost a ps → AllAtMost b ps
AllAtMost-le a b [] le all = tt
AllAtMost-le a b (p ∷ ps) le (one, rest) = (omega arith, AllAtMost-le a b ps le rest)

Greatest-better :
    (p : ℤ) (ps : List ℤ) (o : Option ℤ) → Greatest ps o → Greatest (p ∷ ps) (better o p)
Greatest-better p [] none h = ((omega arith, tt), inl refl)
Greatest-better p [] (some b) h = cc
Greatest-better p (q ∷ ps) none h = absurd h
Greatest-better p (q ∷ ps) (some b) (all, any) = elim (Bool-cases (ltb_ℤ b p)) [
  | inl more ↦
      let is : p ≡ (if ltb_ℤ b p then p else b) = rw more refl in
      subst (λ t. Greatest (p ∷ q ∷ ps) (some t)) is
        ((omega arith, AllAtMost-le b p (q ∷ ps) (ground arith) all), inl refl)
  | inr less ↦
      let is : b ≡ (if ltb_ℤ b p then p else b) = rw less refl in
      subst (λ t. Greatest (p ∷ q ∷ ps) (some t)) is ((ground arith, all), inr any)
]

module _ (r : SortedSets) (c : Calendar) (g : Slug) (x : Bucket) (n : ℕ) where
  open r use {Set}

  submit_all-Greatest_from :
      (until : ℕ) (ss : List Submission) (before : List ℤ) (boards : Boards Set)
      → Named r c g x n ss
      → AllInTime r until c x ss
      → Alive r until x boards
      → Greatest before (zscore r n (board_key (game g) x) boards)
      → Greatest
          (earned r c g x n before ss)
          (zscore r n (board_key (game g) x) (submit_all r c ss boards))
  unfolding earned submit_all
  submit_all-Greatest_from until [] before boards named timely alive held = held
  submit_all-Greatest_from until (s ∷ ss) before boards (named, rest) (now, timely) alive held =
      submit_all-Greatest_from until ss (if counts r c g x n s then s.points ∷ before else before)
        (submit_one r c s boards) rest timely
        (submit-Alive r until c x s.call s.clock s.now s.user s.slug s.points s.at boards now alive)
        (rw (submit-score r c g x n until s boards named now.0 alive) (step (counts r c g x n s)))
    where
      step :
          (yes_ : Bool)
          → Greatest (if yes_ then s.points ∷ before else before) (
              if yes_
              then better (zscore r n (board_key (game g) x) boards) s.points
              else zscore r n (board_key (game g) x) boards)
      step true = Greatest-better s.points before (zscore r n (board_key (game g) x) boards) held
      step false = held

  -- From empty boards, whatever is submitted for games whose slugs are not empty, and whatever calls
  -- are lost or refused: on the board of a game and a bucket a user's score is the greatest of the
  -- points that reached Redis for them, and the user has none if no points did, as long as no key of
  -- the bucket runs out: every submission comes before some time `until`, and one that falls in the
  -- bucket at most the period's time to live before it.
  pub submit_all-Greatest :
      (until : ℕ) (ss : List Submission)
      → Named r c g x n ss
      → AllInTime r until c x ss
      → Greatest
          (earned r c g x n [] ss)
          (zscore r n (board_key (game g) x) (submit_all r c ss (no_boards r)))
  unfolding row_score
  submit_all-Greatest until ss named timely =
      submit_all-Greatest_from until ss [] (no_boards r) named timely (λ scope. tt)
        (rw r.rows-empty refl)
