-- ===== src/Tests/Leaderboard.antt =====
-- Concrete boards for internal/leaderboard.
use Prim.Native.String.{String}
use podium.Base.{
  ℕ, ◌+◌, ◌*◌, ◌≡◌, inl, inr, refl, ◌↔◌, Option, none, some, List, [], ◌∷◌, ok, length, sym, ◌∙◌,
  true, false, Bool-cases, ◌==◌, if◌then◌else◌, arith, ◌⊎◌,
}
use podium.Leaderboard.Username.{
  has_id, lookup, cached_name, first_name, resolve, IsCached, resolve-user_name,
}
use podium.Base.Int.{ℤ, pos}
use podium.Games.Common.{Time}
use podium.Games.Registry.{Slug}
use podium.Session.Store.{ScoreEvent}
use podium.Leaderboard.Keys.{
  Period, Bucket, all_time, daily, weekly, monthly, periods, ttl, second, day_length, window,
  bucket, global, game,
}
use podium.Leaderboard.Keys.Windows.{InWindow, EndsBy, bucket-window, window-ttl}
use podium.Leaderboard.Redis.{or_zero, Boards}
use podium.Leaderboard.Submit.{answered, lost, no_boards, zscore}
use podium.Leaderboard.Submit.Totals.{
  board_key, Once, Consistent, Submission, submit_all, AllListed, AllInTime, submit_all-Consistent,
}
use podium.Leaderboard.Submit.Lasting.{Late, InTime}
use podium.Leaderboard.Submit.Bests.{Greatest, earned, submit_all-Greatest}
use podium.Leaderboard.Pages.{page_at, page_offset, page_size, slice}
use podium.Leaderboard.Pages.Ranks.{ranked_entries, page_at-ranked}
use podium.Leaderboard.Rebuild.{Report, rebuild}
use podium.Leaderboard.Rebuild.Answered.{report_of}
use podium.Leaderboard.Rebuild.Restores.{rebuild-submit_all}
use podium.Tests.Boards.{listed_sets, even_months}

abbrev noon : ℕ → Time
noon day = day * day_length + 12 * 3600 * second

bucket-window_example :
    (bucket even_months weekly (noon 8) ≡ bucket even_months weekly (noon 12))
    ↔ InWindow (window even_months weekly (noon 8)) (noon 12)
bucket-window_example = bucket-window even_months weekly (noon 8) (noon 12)

window-ttl_example :
    InWindow (window even_months monthly (noon 40)) (noon 40)
    × EndsBy (window even_months monthly (noon 40)) (noon 40 + ttl monthly * second)
window-ttl_example = window-ttl even_months monthly (noon 40)

abbrev slugs : List Slug
slugs = "memory" ∷ "reaction" ∷ []

abbrev played : ℕ → Slug → ℤ → ℕ → ScoreEvent ℕ
played user slug points day = record {
  id = 1;
  user_id = user;
  session_id = 1;
  game = slug;
  raw = 0;
  points = points;
  achieved_at = noon day;
  projected_at = none;
}

abbrev scores : List (ScoreEvent ℕ)
scores =
    played 1 "memory" (pos 40) 7
    ∷ played 2 "memory" (pos 60) 8
    ∷ played 1 "reaction" (pos 10) 8
    ∷ played 1 "memory" (pos 55) 8
    ∷ []

abbrev submission : ℕ → Slug → ℤ → ℕ → Submission
submission user slug points day = record {
  call = answered;
  clock = 100;
  now = noon 9;
  user = user;
  slug = slug;
  points = points;
  at = some (noon day);
}

abbrev submissions : List Submission
submissions =
    submission 1 "memory" (pos 40) 7
    ∷ record (submission 2 "memory" (pos 60) 8) { call = lost }
    ∷ submission 1 "reaction" (pos 10) 8
    ∷ submission 1 "memory" (pos 55) 8
    ∷ []

memory-Once : Once "memory" slugs
memory-Once = inl (refl, (refl, tt))

reaction-Once : Once "reaction" slugs
reaction-Once = inr (refl, inl (refl, tt))

abbrev Set : Type 0
Set = listed_sets.Set

all_listed : AllListed listed_sets slugs submissions
all_listed =
    ((refl, memory-Once), ((refl, memory-Once), ((refl, reaction-Once), ((refl, memory-Once), tt))))

-- Two days after the submissions no board of theirs has run out.
abbrev end : ℕ
end = 100 + 2 * 24 * 3600

late : (p : Period) → Late listed_sets end 100 (ttl p)
unfolding ttl
late all_time = inl refl
late daily = inr (omega arith)
late weekly = inr (omega arith)
late monthly = inr (omega arith)

all_in_time : (x : Bucket) → AllInTime listed_sets end even_months x submissions
all_in_time x = (one (noon 7), (one (noon 8), (one (noon 8), (one (noon 8), tt))))
  where
    one : (at : Time) → InTime listed_sets end even_months x 100 at
    one at = (omega arith, λ p hit. late p)

submit_all-Consistent_example :
    Consistent listed_sets slugs
      (bucket even_months daily (noon 8))
      (submit_all listed_sets even_months submissions (no_boards listed_sets))
submit_all-Consistent_example =
    submit_all-Consistent listed_sets slugs even_months end (bucket even_months daily (noon 8))
      submissions all_listed (all_in_time (bucket even_months daily (noon 8)))

submit_all-Greatest_example :
    Greatest
      (earned listed_sets even_months "memory" (bucket even_months daily (noon 8)) 1 [] submissions)
      (zscore listed_sets 1
        (board_key (game "memory") (bucket even_months daily (noon 8)))
        (submit_all listed_sets even_months submissions (no_boards listed_sets)))
submit_all-Greatest_example =
    submit_all-Greatest listed_sets even_months "memory" (bucket even_months daily (noon 8)) 1 end
      submissions (refl, (refl, (refl, (refl, tt))))
      (all_in_time (bucket even_months daily (noon 8)))

abbrev boards : Boards Set
boards = submit_all listed_sets even_months submissions (no_boards listed_sets)

names : ℕ → String
names n = "someone"

page_at-ranked_example :
    page_at listed_sets
      (λ ids. ok names)
      (board_key (game "memory") (bucket even_months daily (noon 8)))
      (some boards)
      (some boards)
      (some boards)
      (pos 1)
      (pos 5)
    ≡ ok (record {
      total = length (
          listed_sets.rows
            (boards (board_key (game "memory") (bucket even_months daily (noon 8)))).set);
      offset = page_offset (pos 1);
      entries =
          ranked_entries names
            (listed_sets.rows
              (boards (board_key (game "memory") (bucket even_months daily (noon 8)))).set)
            (slice listed_sets (page_offset (pos 1)) (page_size (pos 5)) (
              listed_sets.rows
                (boards (board_key (game "memory") (bucket even_months daily (noon 8)))).set));
    })
page_at-ranked_example =
    page_at-ranked listed_sets (λ ids. ok names)
      (board_key (game "memory") (bucket even_months daily (noon 8))) boards boards (pos 1) (pos 5)
      names refl

abbrev rebuilt : Option Report × Boards Set
rebuilt =
    rebuild listed_sets even_months (λ q g. answered) (λ q. answered) 100 (λ q. some scores)
      (some (noon 9)) slugs (no_boards listed_sets)

rebuild-submit_all_example :
    (rebuilt.0 ≡ some (report_of listed_sets even_months 100 (noon 9) slugs scores periods))
    × (zscore listed_sets 1
          (board_key (game "memory") (bucket even_months weekly (noon 9)))
          rebuilt.1
        ≡ zscore listed_sets 1
            (board_key (game "memory") (bucket even_months weekly (noon 9)))
            boards)
    × (or_zero
          (zscore listed_sets 1 (board_key global (bucket even_months weekly (noon 9))) rebuilt.1)
        ≡ or_zero
            (zscore listed_sets 1 (board_key global (bucket even_months weekly (noon 9))) boards))
rebuild-submit_all_example =
    rebuild-submit_all listed_sets even_months 100 slugs (noon 9) scores (no_boards listed_sets)
      submissions weekly 1 "memory" end
      (
        (refl, refl, refl, refl, refl),
        (
          (refl, refl, refl, refl, refl),
          ((refl, refl, refl, refl, refl), ((refl, refl, refl, refl, refl), tt)),
        ),
      )
      all_listed (all_in_time (bucket even_months weekly (noon 9))) (refl, memory-Once)

abbrev user_name : ℕ → Option String
user_name i = if i == 1 then some "ada" else (if i == 2 then some "bob" else none)

abbrev one_cached : ℕ → Option String
one_cached i = if i == 1 then some "ada" else none

abbrev all_rows : List ℕ → List (ℕ × String)
all_rows ids = (1, "ada") ∷ (2, "bob") ∷ []

cached : IsCached user_name one_cached
cached i name e = by_id (Bool-cases (i == 1)) e
  where
    by_id :
        ((i == 1) ≡ true) ⊎ ((i == 1) ≡ false)
        → cached_name (one_cached i) ≡ some name
        → user_name i ≡ some name
    by_id (inl one) e = (let found : some "ada" ≡ some name = rw one at e in rw one found)
    by_id (inr other) e = (let found : none ≡ some name = rw other at e in cc (found))

all_rows-user_name : (i : ℕ) (ids : List ℕ) → lookup i (all_rows ids) ≡ user_name i
unfolding lookup
all_rows-user_name i ids = ground arith

asked_for : has_id 2 (1 ∷ 2 ∷ 1 ∷ []) ≡ true
unfolding has_id
asked_for = refl

resolve-user_name_example :
    (names : ℕ → String) × (resolve (some one_cached) (λ js. some (all_rows js)) (1 ∷ 2 ∷ 1 ∷ [])
      ≡ ok names)
    × (names 2 ≡ first_name (user_name 2) none)
resolve-user_name_example =
    resolve-user_name user_name one_cached all_rows 2 1 (2 ∷ 1 ∷ []) cached
      (
        (λ i ids there. all_rows-user_name i ids),
        (λ i ids name e. sym (all_rows-user_name i ids) ∙ e),
      )
      asked_for
