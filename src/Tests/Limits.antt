-- ===== src/Tests/Limits.antt =====
-- Concrete calls for internal/ratelimit and internal/realtime.
use Prim.Native.String.{String}
use podium.Base.{
  ℕ, suc, ◌*◌, ◌+◌, ◌≤◌, ◌≡◌, ◌↔◌, refl, false, Option, none, some, List, [], ◌∷◌, ok, err, arith,
  length, min,
}
use podium.Games.Registry.{Registry, Definition, get, find}
use podium.Leaderboard.Keys.{daily, game}
use podium.Ratelimit.{
  Counter, Call, answered, lost, permitted, Event, checking, resetting, let_through,
}
use podium.Ratelimit.Windows.{allowance, let_through_twice, permitted_exact}
use podium.Realtime.Channels.{Channel, parse_channel, channel_name, parse_channel_iff}
use podium.Realtime.Tickets.{
  Moment, Action, Keys, issuing, redeeming, issue, redeem, act, ticket_once, ticket_invalid,
}
use podium.Realtime.Tickets as Tickets
use podium.Base.Int.{ℤ}
use podium.Games.Common.{invalid_move}

abbrev nearly_over : Option Counter
nearly_over = some (record { count = 1; expires = some 105 })

abbrev burst : List (ℕ × Event)
burst =
    (100, checking answered)
    ∷ (104, checking lost)
    ∷ (106, checking answered)
    ∷ (150, resetting answered)
    ∷ (199, checking answered)
    ∷ []

let_through_twice_example : let_through 2 100 burst nearly_over ≤ 2 * 2 + allowance 2 burst
let_through_twice_example = let_through_twice 2 100 100 200 nearly_over burst (omega arith) (
  omega arith,
  omega arith,
  (
    omega arith,
    omega arith,
    (omega arith, omega arith, (omega arith, omega arith, (omega arith, omega arith, tt))),
  ),
)

abbrev two_more : List (ℕ × Call)
two_more = (120, answered) ∷ (130, answered) ∷ []

permitted_exact_example :
    permitted 2 100 ((100, answered) ∷ two_more) none ≡ min (suc (length two_more)) 2
permitted_exact_example =
    permitted_exact 2 100 100 200 two_more (omega arith) (omega arith)
      (omega arith, omega arith, (omega arith, omega arith, tt)) (refl, (refl, tt))

abbrev memory_like : Definition ℤ
memory_like = record {
  slug = "memory";
  name = "Memory";
  metric = "levels";
  lower_is_better = false;
  duration = none;
  engine = record {
    start = λ seed now. err invalid_move;
    view = λ state. err invalid_move;
    move = λ state raw now. err invalid_move;
    raw = λ state. err invalid_move;
  };
  points = λ raw. raw;
}

abbrev one_game : Registry ℤ
one_game = record { order = "memory" ∷ []; entries = ("memory", memory_like) ∷ [] }

known : get one_game "memory" ≡ ok memory_like
unfolding get find
known = refl

abbrev board : Channel
board = record { scope = game "memory"; period = daily }

parse_channel_iff_example :
    (parse_channel one_game "memory:daily" ≡ some board) ↔ ("memory:daily" ≡ channel_name board)
parse_channel_iff_example =
    parse_channel_iff one_game "memory:daily" board
      (memory_like, known, (refl, (refl, (refl, (refl, (refl, (refl, tt)))))), refl, refl)

abbrev no_tickets : Keys
no_tickets token = none

abbrev moment : ℕ → Option String → Moment
moment now drawn = record { now = now; drawn = drawn; call = Tickets.answered }

abbrev others : List (Moment × Action)
others = (moment 20 (some "other"), issuing 8) ∷ (moment 21 none, redeeming "other") ∷ []

ticket_once_example :
    ((redeem
        (moment 25 none)
        "mine"
        (act 30 others (issue 30 (moment 10 (some "mine")) 7 no_tickets).1)).0
      ≡ ok 7)
    × ((redeem (moment 26 none) "mine" (
          act 30 others
            (redeem
              (moment 25 none)
              "mine"
              (act 30 others (issue 30 (moment 10 (some "mine")) 7 no_tickets).1)).1)).0
        ≡ err ticket_invalid)
ticket_once_example =
    ticket_once 30 7 (moment 10 (some "mine")) (moment 25 none) (moment 26 none) "mine" no_tickets
      others others refl refl refl refl refl (refl, (refl, tt)) (refl, tt) (omega arith)
