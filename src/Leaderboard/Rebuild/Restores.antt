-- ===== src/Leaderboard/Rebuild/Restores.antt =====
-- internal/leaderboard/rebuild.go: the boards after a rebuild are those of the submissions.
use text.Mathlib.Text.{◌==◌ as str_eq}
use text.Mathlib.TextEquality.{eq_iff}
use podium.Base.{
  ℕ, ◌≡◌, refl, sym, ap, ◌∙◌, inl, inr, false, Option, some, List, [], ◌∷◌, Bool-cases,
}
use podium.Base.Int.{ℤ}
use podium.Games.Common.{Time}
use podium.Games.Registry.{Slug}
use podium.Session.Store.{ScoreEvent}
use podium.Leaderboard.Keys.{
  Period, all_time, daily, weekly, monthly, periods, ttl, window, Calendar, Bucket, bucket,
  eq_bucket, Scope, global, game, eq_scope, scope_of, key, eq_key,
}
use podium.Leaderboard.Keys.Names.{eq_bucket_refl}
use podium.Leaderboard.Redis.{SortedSets, row_score, or_zero, Boards}
use podium.Leaderboard.Submit.{answered, no_boards, zscore}
use podium.Leaderboard.Submit.Totals.{
  board_key, total-eq, Once, IsListed, Submission, submit_all, AllListed, AllInTime,
  submit_all-Consistent,
}
use podium.Leaderboard.Submit.Totals.{Absent, other_bucket, str_eq_comm}
use podium.Leaderboard.Rebuild.{Best, best_points, game_scores, global_scores, rebuild}
use podium.Leaderboard.Rebuild.Groups.{row_score-game_scores, best_or_zero, row_score-global_scores}
use podium.Leaderboard.Rebuild.Agreement.{Submits, Agree-best_points}
use podium.Leaderboard.Rebuild.Answered.{
  replaced, replaced-zscore, games_replaced, period_replaced, turn, turns, report_of,
  rebuild-answered,
}

-- A game's key is the key of another game only if it is the same.
eq_key-games :
    (c : Calendar) (p : Period) (now : Time) (g h : Slug)
    → str_eq g "" ≡ false
    → eq_key (key c (scope_of h) p now) (board_key (game g) (bucket c p now)) ≡ str_eq h g
unfolding eq_key eq_scope key scope_of
eq_key-games c p now g h named = elim (Bool-cases (str_eq h "")) [
  | inr other ↦ elim (Bool-cases (str_eq h g)) [
    | inl same ↦ rw (other, same) (eq_bucket_refl (bucket c p now))
    | inr apart ↦ rw (other, apart) refl
  ]
  | inl none_ ↦
      let empty : h ≡ "" = (eq_iff h "").0 none_ in rw (none_, empty) (sym (str_eq_comm g "" named))
]

module _ (r : SortedSets) (c : Calendar) (clock : ℕ) (n : ℕ) where
  open r use {Set}

  module _ (p : Period) (now : Time) (best : List Best) (g : Slug)
      (named : str_eq g "" ≡ false) where
    abbrev own : Boards Set → Option ℤ
    own boards = zscore r n (board_key (game g) (bucket c p now)) boards

    games_replaced-Absent :
        (gs : List Slug) (boards : Boards Set)
        → Absent g gs
        → own (games_replaced r c clock p now best gs boards) ≡ own boards
    games_replaced-Absent [] boards absent = refl
    games_replaced-Absent (h ∷ gs) boards (apart, absent) =
        let k = key c (scope_of h) p now in
        games_replaced-Absent gs (replaced r clock (ttl p) k (game_scores h [] best) boards) absent
        ∙ replaced-zscore r clock (ttl p) n k (board_key (game g) (bucket c p now))
            (game_scores h [] best) boards
        ∙ rw (eq_key-games c p now g h named, apart) refl

    games_replaced-Once :
        (gs : List Slug) (boards : Boards Set)
        → Once g gs
        → own (games_replaced r c clock p now best gs boards) ≡ row_score n (game_scores g [] best)
    games_replaced-Once [] boards once = absurd once
    games_replaced-Once (h ∷ gs) boards (inr (apart, once)) =
        games_replaced-Once gs
          (replaced r clock (ttl p) (key c (scope_of h) p now) (game_scores h [] best) boards) once
    games_replaced-Once (h ∷ gs) boards (inl (same, absent)) =
        let k = key c (scope_of h) p now in
        let one : h ≡ g = (eq_iff h g).0 same in
        games_replaced-Absent gs (replaced r clock (ttl p) k (game_scores h [] best) boards) absent
        ∙ replaced-zscore r clock (ttl p) n k (board_key (game g) (bucket c p now))
            (game_scores h [] best) boards
        ∙ rw (eq_key-games c p now g h named, same)
            (ap (λ (s : Slug). row_score n (game_scores s [] best)) one)

    period_replaced-game :
        (gs : List Slug) (boards : Boards Set)
        → Once g gs
        → own (period_replaced r c clock p now gs best boards) ≡ row_score n (game_scores g [] best)
    unfolding eq_key eq_scope key
    period_replaced-game gs boards once =
        replaced-zscore r clock (ttl p) n (key c global p now) (board_key (game g) (bucket c p now))
          (global_scores [] best) (games_replaced r c clock p now best gs boards)
        ∙ games_replaced-Once gs boards once

  period_replaced-global :
      (p : Period) (now : Time) (best : List Best) (gs : List Slug) (boards : Boards Set)
      → zscore r n
          (board_key global (bucket c p now))
          (period_replaced r c clock p now gs best boards)
        ≡ row_score n (global_scores [] best)
  unfolding eq_key eq_scope key
  period_replaced-global p now best gs boards =
      replaced-zscore r clock (ttl p) n (key c global p now) (board_key global (bucket c p now))
        (global_scores [] best) (games_replaced r c clock p now best gs boards)
      ∙ rw (eq_bucket_refl (bucket c p now)) refl

  -- The turn of another period touches no key of a bucket.
  games_replaced-other :
      (p : Period) (now : Time) (best : List Best) (scope : Scope) (x : Bucket) (gs : List Slug)
      (boards : Boards Set)
      → eq_bucket (bucket c p now) x ≡ false
      → zscore r n (board_key scope x) (games_replaced r c clock p now best gs boards)
        ≡ zscore r n (board_key scope x) boards
  unfolding key
  games_replaced-other p now best scope x [] boards miss = refl
  games_replaced-other p now best scope x (h ∷ gs) boards miss =
      let k = key c (scope_of h) p now in
      games_replaced-other p now best scope x gs
        (replaced r clock (ttl p) k (game_scores h [] best) boards) miss
      ∙ replaced-zscore r clock (ttl p) n k (board_key scope x) (game_scores h [] best) boards
      ∙ rw (other_bucket (scope_of h) scope (bucket c p now) x miss) refl

  period_replaced-other :
      (p : Period) (now : Time) (best : List Best) (scope : Scope) (x : Bucket) (gs : List Slug)
      (boards : Boards Set)
      → eq_bucket (bucket c p now) x ≡ false
      → zscore r n (board_key scope x) (period_replaced r c clock p now gs best boards)
        ≡ zscore r n (board_key scope x) boards
  unfolding key
  period_replaced-other p now best scope x gs boards miss =
      replaced-zscore r clock (ttl p) n (key c global p now) (board_key scope x)
        (global_scores [] best) (games_replaced r c clock p now best gs boards)
      ∙ rw (other_bucket global scope (bucket c p now) x miss)
          (games_replaced-other p now best scope x gs boards miss)

module _ {F : Type 0} (r : SortedSets) (c : Calendar) (clock : ℕ) (slugs : List Slug) (now : Time)
    (events : List (ScoreEvent F)) (boards : Boards r.Set) where
  open r use {Set}

  abbrev took : Period → Boards Set → Boards Set
  took p b = turn r c clock now slugs events p b

  -- The boards that a period's turn meets.
  abbrev before : Period → Boards Set
  before all_time = boards
  before daily = took all_time boards
  before weekly = took daily (took all_time boards)
  before monthly = took weekly (took daily (took all_time boards))

  other_turn :
      (q p : Period) (scope : Scope) (n : ℕ) (b : Boards Set)
      → eq_bucket (bucket c q now) (bucket c p now) ≡ false
      → zscore r n (board_key scope (bucket c p now)) (took q b)
        ≡ zscore r n (board_key scope (bucket c p now)) b
  other_turn q p scope n b miss =
      period_replaced-other r c clock n q now (best_points (window c q now) events) scope
        (bucket c p now) slugs b miss

  -- The boards of a period are those of its turn.
  turns-own :
      (p : Period) (scope : Scope) (n : ℕ)
      → zscore r n
          (board_key scope (bucket c p now))
          (turns r c clock now slugs events periods boards)
        ≡ zscore r n (board_key scope (bucket c p now)) (took p (before p))
  unfolding bucket eq_bucket
  turns-own monthly scope n = refl
  turns-own weekly scope n = other_turn monthly weekly scope n (took weekly (before weekly)) refl
  turns-own daily scope n =
      other_turn monthly daily scope n (took weekly (before weekly)) refl
      ∙ other_turn weekly daily scope n (took daily (before daily)) refl
  turns-own all_time scope n =
      other_turn monthly all_time scope n (took weekly (before weekly)) refl
      ∙ other_turn weekly all_time scope n (took daily (before daily)) refl
      ∙ other_turn daily all_time scope n (took all_time (before all_time)) refl

  -- Whatever the boards were, after a rebuild whose calls are answered and whose queries all meet the
  -- same scores: the boards of every period's current bucket hold what one submission of each score
  -- that reached Redis made of empty boards, for scores of listed games; a listed game's board has the
  -- same score of every user or none, the cross-game board the same total, 0 for none. No key of the
  -- bucket runs out meanwhile: every submission comes before some time `until`, and one that falls in
  -- the bucket at most the period's time to live before it. The rebuild answers with its report.
  pub rebuild-submit_all :
      (ss : List Submission) (p : Period) (n : ℕ) (g : Slug) (until : ℕ)
      → Submits events ss
      → AllListed r slugs ss
      → AllInTime r until c (bucket c p now) ss
      → IsListed r slugs g
      → ((rebuild r c
            (λ q g. answered)
            (λ q. answered)
            clock
            (λ q. some events)
            (some now)
            slugs
            boards).0
          ≡ some (report_of r c clock now slugs events periods))
        × (zscore r n
              (board_key (game g) (bucket c p now))
              (rebuild r c
                (λ q g. answered)
                (λ q. answered)
                clock
                (λ q. some events)
                (some now)
                slugs
                boards).1
            ≡ zscore r n (board_key (game g) (bucket c p now)) (submit_all r c ss (no_boards r)))
        × (or_zero (
              zscore r n
                (board_key global (bucket c p now))
                (rebuild r c
                  (λ q g. answered)
                  (λ q. answered)
                  clock
                  (λ q. some events)
                  (some now)
                  slugs
                  boards).1)
            ≡ or_zero
                (zscore r n (board_key global (bucket c p now)) (submit_all r c ss (no_boards r))))
  rebuild-submit_all ss p n g until is listed timely (named, once) =
      let best = best_points (window c p now) events in
      let (grouped, games, same) =
        Agree-best_points r c slugs p now until events ss is listed timely in
      rw (rebuild-answered r c clock now slugs events boards) (
        refl,
        turns-own p (game g) n
            ∙ period_replaced-game r c clock n p now best g named slugs (before p) once
            ∙ row_score-game_scores g n best grouped
            ∙ same g n,
        ap or_zero (
              turns-own p global n ∙ period_replaced-global r c clock n p now best slugs (before p))
            ∙ row_score-global_scores slugs n best grouped games
            ∙ total-eq (best_or_zero n best)
                (λ s. or_zero (
                  zscore r n (board_key (game s) (bucket c p now))
                    (submit_all r c ss (no_boards r))))
                slugs (λ s. ap or_zero (same s n))
            ∙ sym (submit_all-Consistent r slugs c until (bucket c p now) ss listed timely n),
      )
