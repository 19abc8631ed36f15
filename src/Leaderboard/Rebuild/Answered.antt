-- ===== src/Leaderboard/Rebuild/Answered.antt =====
-- internal/leaderboard/rebuild.go: what a rebuild does to the boards when every call is answered.
use podium.Base.{
  ℕ, suc, ◌*◌, ◌+◌, ◌≡◌, refl, ap, ◌∙◌, inl, inr, some, List, [], ◌∷◌, arith, ◌==◌, if◌then◌else◌,
  Bool-cases, length,
}
use podium.Games.Common.{Time}
use podium.Games.Registry.{Slug}
use podium.Session.Store.{ScoreEvent}
use podium.Leaderboard.Keys.{
  Period, periods, ttl, window, Calendar, global, scope_of, Key, key, eq_key,
}
use podium.Leaderboard.Redis.{SortedSets, Row, row_score, Boards}
use podium.Leaderboard.Submit.{answered, zscore}
use podium.Leaderboard.Rebuild.{
  Best, best_points, game_scores, global_scores, Report, stage, replace_key, rebuild_games,
  rebuild_period, rebuild_all, rebuild,
}

module _ (r : SortedSets) where
  open r use {Set, rows, empty}

  row_score-stage :
      (n : ℕ) (scores : List Row) → row_score n (rows (stage r scores)) ≡ row_score n scores
  unfolding stage row_score
  row_score-stage n [] = rw r.rows-empty refl
  row_score-stage n ((m, s) ∷ scores) =
      r.score-zadd m n s (stage r scores)
      ∙ ap (λ rest. if m == n then some s else rest) (row_score-stage n scores)

  abbrev pub replaced : ℕ → ℕ → Key → List Row → Boards Set → Boards Set
  replaced clock life k scores boards = (replace_key r answered clock life k scores boards).1

  pub replaced-zscore :
      (clock life n : ℕ) (k j : Key) (scores : List Row) (boards : Boards Set)
      → zscore r n j (replaced clock life k scores boards)
        ≡ (if eq_key k j then row_score n scores else zscore r n j boards)
  unfolding replace_key row_score
  replaced-zscore clock life n k j [] boards = elim (Bool-cases (eq_key k j)) [
    | inl hit ↦ rw (hit, r.rows-empty) refl
    | inr miss ↦ rw miss refl
  ]
  replaced-zscore clock life n k j (row ∷ scores) boards = elim (Bool-cases (eq_key k j)) [
    | inl hit ↦ rw hit (row_score-stage n (row ∷ scores))
    | inr miss ↦ rw miss refl
  ]

  -- The keys of the games, one after the other.
  abbrev pub games_replaced :
      Calendar → ℕ → Period → Time → List Best → List Slug → Boards Set → Boards Set
  games_replaced c clock p now best [] boards = boards
  games_replaced c clock p now best (g ∷ gs) boards =
      games_replaced c clock p now best gs
        (replaced clock (ttl p) (key c (scope_of g) p now) (game_scores g [] best) boards)

  abbrev pub period_replaced :
      Calendar → ℕ → Period → Time → List Slug → List Best → Boards Set → Boards Set
  period_replaced c clock p now slugs best boards =
      replaced clock (ttl p) (key c global p now) (global_scores [] best)
        (games_replaced c clock p now best slugs boards)

  abbrev games_entries : List Best → List Slug → ℕ
  games_entries best [] = 0
  games_entries best (g ∷ gs) = games_entries best gs + length (game_scores g [] best)

  replace_key-answered :
      (clock life : ℕ) (k : Key) (scores : List Row) (boards : Boards Set)
      → replace_key r answered clock life k scores boards
        ≡ (some (length scores), replaced clock life k scores boards)
  unfolding replace_key
  replace_key-answered clock life k [] boards = refl
  replace_key-answered clock life k (row ∷ rows) boards = refl

  rebuild_games-answered :
      (c : Calendar) (clock : ℕ) (p : Period) (now : Time) (best : List Best) (gs : List Slug)
      (boards : Boards Set)
      → rebuild_games r c (λ g. answered) clock p now best gs boards
        ≡ (some (length gs, games_entries best gs), games_replaced c clock p now best gs boards)
  unfolding rebuild_games
  rebuild_games-answered c clock p now best [] boards = refl
  rebuild_games-answered c clock p now best (g ∷ gs) boards =
      let one_more : length gs + 1 ≡ suc (length gs) = omega arith in
      rw
        (
          replace_key-answered clock (ttl p) (key c (scope_of g) p now) (game_scores g [] best)
              boards,
          rebuild_games-answered c clock p now best gs
              (replaced clock (ttl p) (key c (scope_of g) p now) (game_scores g [] best) boards),
        )
        (ap
          (λ n. (
            some (n, games_entries best (g ∷ gs)),
            games_replaced c clock p now best (g ∷ gs) boards,
          ))
          one_more)

  rebuild_period-answered :
      (c : Calendar) (clock : ℕ) (p : Period) (now : Time) (best : List Best) (slugs : List Slug)
      (boards : Boards Set)
      → rebuild_period r c (λ g. answered) answered clock p now best slugs boards ≡ (
        some (length slugs + 1, games_entries best slugs + length (global_scores [] best)),
        period_replaced c clock p now slugs best boards,
      )
  unfolding rebuild_period
  rebuild_period-answered c clock p now best slugs boards =
      rw
        (
          rebuild_games-answered c clock p now best slugs boards,
          replace_key-answered clock (ttl p) (key c global p now) (global_scores [] best)
              (games_replaced c clock p now best slugs boards),
        )
        refl

  module _ {F : Type 0} (c : Calendar) (clock : ℕ) (now : Time) (slugs : List Slug)
      (events : List (ScoreEvent F)) where
    abbrev pub turn : Period → Boards Set → Boards Set
    turn p boards = period_replaced c clock p now slugs (best_points (window c p now) events) boards

    abbrev pub turns : List Period → Boards Set → Boards Set
    turns [] boards = boards
    turns (p ∷ ps) boards = turns ps (turn p boards)

    abbrev entries_of : List Period → ℕ
    entries_of [] = 0
    entries_of (p ∷ ps) =
        let best = best_points (window c p now) events in
        entries_of ps + (games_entries best slugs + length (global_scores [] best))

    abbrev pub report_of : List Period → Report
    report_of ps = record {
      keys = length ps * (length slugs + 1);
      entries = entries_of ps;
      periods = ps;
    }

    rebuild_all-answered :
        (ps : List Period) (boards : Boards Set)
        → rebuild_all r c
            (λ p g. answered)
            (λ p. answered)
            clock
            (λ p. some events)
            now
            slugs
            ps
            boards
          ≡ (some (report_of ps), turns ps boards)
    unfolding rebuild_all
    rebuild_all-answered [] boards =
        let none_written : 0 ≡ 0 * (length slugs + 1) = omega arith in
        ap (λ n. (some (record { keys = n; entries = 0; periods = [] }), boards)) none_written
    rebuild_all-answered (p ∷ ps) boards =
        let best = best_points (window c p now) events in
        let keys : length ps * (length slugs + 1) + (length slugs + 1)
            ≡ suc (length ps) * (length slugs + 1) =
          omega arith in
        rw
          (
            rebuild_period-answered c clock p now best slugs boards,
            rebuild_all-answered ps (turn p boards),
          )
          (ap
            (λ n. (
              some (record { keys = n; entries = entries_of (p ∷ ps); periods = p ∷ ps }),
              turns ps (turn p boards),
            ))
            keys)

    -- When every call is answered a rebuild reports, and has taken the turns of all periods.
    pub rebuild-answered :
        (boards : Boards Set)
        → rebuild r c
            (λ p g. answered)
            (λ p. answered)
            clock
            (λ p. some events)
            (some now)
            slugs
            boards
          ≡ (some (report_of periods), turns periods boards)
    unfolding rebuild
    rebuild-answered boards = rebuild_all-answered periods boards
