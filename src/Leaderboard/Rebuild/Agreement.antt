-- ===== src/Leaderboard/Rebuild/Agreement.antt =====
-- internal/leaderboard/rebuild.go and lua/submit.lua: the rows that a rebuild reads and the boards
-- that the submissions of the same scores made.
use text.Mathlib.Text.{◌==◌ as str_eq}
use podium.Base.{
  ℕ, ◌<◌, ◌≡◌, refl, sym, ap, ◌∙◌, ◌⊎◌, inl, inr, Bool, true, false, ◌&&◌, ◌||◌, Option, none, some,
  List, [], ◌∷◌, arith, ◌==◌, if◌then◌else◌, Bool-cases, subst,
}
use podium.Base.Int.{ℤ}
use podium.Games.Common.{Time}
use podium.Games.Registry.{Slug}
use podium.Session.Store.{ScoreEvent}
use podium.Leaderboard.Keys.{
  Period, all_time, daily, weekly, monthly, periods, window, Calendar, Bucket, bucket, eq_bucket,
  game,
}
use podium.Leaderboard.Keys.Names.{eq_bucket_sound, eq_bucket_refl}
use podium.Leaderboard.Keys.Windows.{InWindow, bucket-window}
use podium.Leaderboard.Redis.{SortedSets, row_score, Boards}
use podium.Leaderboard.Submit.{no_boards, zscore}
use podium.Leaderboard.Submit.Effect.{better}
use podium.Leaderboard.Submit.Lasting.{Alive, submit-Alive}
use podium.Leaderboard.Submit.Totals.{
  board_key, Once, IsListed, Submission, submit_one, submit_all, AllListed, AllInTime,
}
use podium.Leaderboard.Submit.Bests.{falls_in, has_run, counts, submit-score}
use podium.Leaderboard.Rebuild.{Best, raise, in_window, best_of, best_from, best_points}
use podium.Leaderboard.Rebuild.Groups.{
  find_best, find_best-raise, IsGrouped, raise-IsGrouped, GamesListed, raise-GamesListed,
}

or_false : (b : Bool) → (b || false) ≡ b
or_false true = refl
or_false false = refl

own_period :
    (c : Calendar) (p : Period) (now at : Time)
    → falls_in c (bucket c p now) at periods ≡ eq_bucket (bucket c p at) (bucket c p now)
unfolding falls_in bucket eq_bucket
own_period c all_time now at = refl
own_period c daily now at = or_false _
own_period c weekly now at = or_false _
own_period c monthly now at = or_false _

InWindow-in_window : (w : Option (Time × Time)) (t : Time) → InWindow w t → in_window w t ≡ true
InWindow-in_window none t h = refl
InWindow-in_window (some (from, until)) t (low, high) = ground arith

in_window-InWindow : (w : Option (Time × Time)) (t : Time) → in_window w t ≡ true → InWindow w t
in_window-InWindow none t e = tt
in_window-InWindow (some (from, until)) t e = ground arith

-- An instant has a bucket of another one exactly when it is in the other's window.
in_window-falls_in :
    (c : Calendar) (p : Period) (now at : Time)
    → falls_in c (bucket c p now) at periods ≡ in_window (window c p now) at
in_window-falls_in c p now at =
    own_period c p now at
    ∙ both (Bool-cases (eq_bucket (bucket c p at) (bucket c p now)))
        (Bool-cases (in_window (window c p now) at))
  where
    both :
        (eq_bucket (bucket c p at) (bucket c p now) ≡ true)
          ⊎ (eq_bucket (bucket c p at) (bucket c p now) ≡ false)
        → (in_window (window c p now) at ≡ true) ⊎ (in_window (window c p now) at ≡ false)
        → eq_bucket (bucket c p at) (bucket c p now) ≡ in_window (window c p now) at
    both (inl a) (inl b) = a ∙ sym b
    both (inr a) (inr b) = a ∙ sym b
    both (inl a) (inr b) =
        let same = eq_bucket_sound (bucket c p at) (bucket c p now) a in
        let inside =
          InWindow-in_window (window c p now) at ((bucket-window c p now at).0 (sym same)) in
        cc (inside, b)
    both (inr a) (inl b) =
        let same = (bucket-window c p now at).1 (in_window-InWindow (window c p now) at b) in
        let hit : eq_bucket (bucket c p at) (bucket c p now) ≡ true =
          rw same (eq_bucket_refl (bucket c p at)) in
        cc (a, hit)

-- The submission of a score: of its points, at its instant, with a call that ran.
abbrev pub IsSubmission : {F : Type 0} → ScoreEvent F → Submission → Type 0
IsSubmission e s =
    (has_run s.call ≡ true)
    × (s.user ≡ e.user_id)
    × (s.slug ≡ e.game)
    × (s.points ≡ e.points)
    × (s.at ≡ some e.achieved_at)

abbrev pub Submits : {F : Type 0} → List (ScoreEvent F) → List Submission → Type 0
Submits [] [] = Unit {0}
Submits (e ∷ es) (s ∷ ss) = IsSubmission e s × Submits es ss
Submits [] (s ∷ ss) = ⊥
Submits (e ∷ es) [] = ⊥

-- The groups and the boards of one bucket after the same scores.
module _ (r : SortedSets) (c : Calendar) (slugs : List Slug) (p : Period) (now : Time) where
  open r use {Set}

  abbrev pub x : Bucket
  x = bucket c p now

  abbrev pub Agree : List Best → Boards Set → Type 0
  Agree acc boards =
      IsGrouped acc
      × GamesListed slugs acc
      × ((g : Slug) (n : ℕ) → find_best g n acc ≡ zscore r n (board_key (game g) x) boards)

  abbrev taken : {F : Type 0} → ScoreEvent F → List Best → List Best
  taken e acc = if in_window (window c p now) e.achieved_at then raise (best_of e) acc else acc

  module _ {F : Type 0} (e : ScoreEvent F) (s : Submission) (is : IsSubmission e s) where
    counted :
        (g : Slug) (n : ℕ)
        → counts r c g x n s
          ≡ (in_window (window c p now) e.achieved_at && (str_eq e.game g && (e.user_id == n)))
    unfolding counts
    counted g n =
        let (run, user, slug, points, at) = is in
        rw (run, user, slug, at)
          (ap (λ b. b && (str_eq e.game g && (e.user_id == n)))
            (in_window-falls_in c p now e.achieved_at))

    find_best-taken :
        (acc : List Best) (g : Slug) (n : ℕ) (o : Option ℤ)
        → find_best g n acc ≡ o
        → find_best g n (taken e acc) ≡ (if counts r c g x n s then better o s.points else o)
    find_best-taken acc g n o same =
        let (run, user, slug, points, at) = is in
        elim (Bool-cases (in_window (window c p now) e.achieved_at)) [
          | inl inside ↦
              rw (counted g n, inside, find_best-raise g n (best_of e) acc, same, points) refl
          | inr outside ↦ rw (counted g n, outside) same
        ]

    Agree-taken :
        (until : ℕ) (acc : List Best) (boards : Boards Set)
        → IsListed r slugs s.slug
        → s.clock < until
        → Alive r until x boards
        → Agree acc boards
        → Agree (taken e acc) (submit_one r c s boards)
    Agree-taken until acc boards (named, once) early alive (grouped, listed, same) =
        let (run, user, slug, points, at) = is in
        let once' : Once e.game slugs = subst (λ (g : Slug). Once g slugs) slug once in
        (
          either IsGrouped (in_window (window c p now) e.achieved_at)
              (raise-IsGrouped (best_of e) acc grouped) grouped,
          either (GamesListed slugs) (in_window (window c p now) e.achieved_at)
              (raise-GamesListed slugs (best_of e) acc once' listed) listed,
          λ g n.
              find_best-taken acc g n (zscore r n (board_key (game g) x) boards) (same g n)
              ∙ sym (submit-score r c g x n until s boards named early alive),
        )
      where
        either :
            (P : List Best → Type 0) (b : Bool) {l m : List Best}
            → P l
            → P m
            → P (if b then l else m)
        either P true h k = h
        either P false h k = k

  Agree-best_from :
      {F : Type 0} (until : ℕ) (es : List (ScoreEvent F)) (ss : List Submission) (acc : List Best)
      (boards : Boards Set)
      → Submits es ss
      → AllListed r slugs ss
      → AllInTime r until c x ss
      → Alive r until x boards
      → Agree acc boards
      → Agree (best_from (window c p now) acc es) (submit_all r c ss boards)
  unfolding best_from submit_all
  Agree-best_from until [] [] acc boards is listed timely alive held = held
  Agree-best_from until [] (s ∷ ss) acc boards is listed timely alive held = absurd is
  Agree-best_from until (e ∷ es) [] acc boards is listed timely alive held = absurd is
  Agree-best_from until (e ∷ es) (s ∷ ss) acc boards (is, rest) (one, listed) (now, timely) alive
        held =
      Agree-best_from until es ss (taken e acc) (submit_one r c s boards) rest listed timely
        (submit-Alive r until c x s.call s.clock s.now s.user s.slug s.points s.at boards now alive)
        (Agree-taken e s is until acc boards one now.0 alive held)

  -- The rows of the query and the boards of the submissions agree.
  pub Agree-best_points :
      {F : Type 0} (until : ℕ) (es : List (ScoreEvent F)) (ss : List Submission)
      → Submits es ss
      → AllListed r slugs ss
      → AllInTime r until c x ss
      → Agree (best_points (window c p now) es) (submit_all r c ss (no_boards r))
  unfolding best_points find_best row_score
  Agree-best_points until es ss is listed timely =
      Agree-best_from until es ss [] (no_boards r) is listed timely (λ scope. tt)
        (tt, tt, λ g n. rw r.rows-empty refl)
