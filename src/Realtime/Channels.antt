-- ===== src/Realtime/Channels.antt =====
-- internal/realtime/channel.go: the names of the boards that a client can subscribe to.
use Prim.Native.String.{String, [] as empty, ◌∷◌ as ◌∷ₛ◌, ◌++◌ as ◌++ₛ◌}
use Prim.Native.String.append
use Prim.Native.Char.{Char, code}
use text.Mathlib.TextEquality.{eq_iff, Char-path}
use text.Mathlib.Text.{◌==◌ as str_eq}
use podium.Base.{
  ◌≡◌, ◌↔◌, ◌⊎◌, inl, inr, Bool-cases, refl, sym, ap, arith, ◌∙◌, true, false, ◌||◌, Option, none,
  some, Result, ok, err, ◌==◌, if◌then◌else◌,
}
use podium.Games.Common as Games
use podium.Games.Registry.{Slug, Definition, Registry, get}
use podium.Leaderboard.Keys.{
  Period, all_time, daily, weekly, monthly, period_name, parse_period, Scope, global, game,
  scope_of, scope_name,
}
use podium.Leaderboard.Keys.Names.{parse_period-period_name, parse_period_sound}

pub record Channel : Type 0 where
  pub scope : Scope
  pub period : Period

abbrev pub global_scope_name : String
global_scope_name = "global"

-- Channel.String
unfoldable pub channel_name : Channel → String
channel_name c = scope_name c.scope ++ₛ (":" ++ₛ period_name c.period)

abbrev pub with_char : Char → Option (String × String) → Option (String × String)
with_char c none = none
with_char c (some (a, b)) = some (c ∷ₛ a, b)

-- strings.Cut at a colon.
unfoldable pub cut : String → Option (String × String)
cut empty = none
cut (c ∷ₛ s) = let rest = cut s in if code c == 58 then some (empty, s) else with_char c rest

-- A name that the registry has.
abbrev pub game_scope : {A : Type 0} → Result Games.Error A → Slug → Option Scope
game_scope (ok d) slug = some (scope_of slug)
game_scope (err e) slug = none

abbrev pub channel_of : Option Scope → Option Period → Option Channel
channel_of (some scope) (some p) = some (record { scope = scope; period = p })
channel_of none p = none
channel_of (some scope) none = none

module _ {F : Type 0} where
  abbrev pub parse_parts : Registry F → Option (String × String) → Option Channel
  parse_parts registry none = none
  parse_parts registry (some (s, p)) =
      if str_eq s "" || str_eq p ""
      then none
      else channel_of
          (if str_eq s global_scope_name then some global else game_scope (get registry s) s)
          (parse_period p)

  -- ParseChannel; `none` is an error.
  unfoldable pub parse_channel : Registry F → String → Option Channel
  unfolding cut
  parse_channel registry raw = parse_parts registry (cut raw)

-- A text without a colon.
abbrev pub NoColon : String → Type 0
NoColon empty = Unit {0}
NoColon (c ∷ₛ s) = ((code c == 58) ≡ false) × NoColon s

abbrev colon : Char
colon = ":"

with_colon : (t : String) → ":" ++ₛ t ≡ colon ∷ₛ t
with_colon t = append.cons colon empty t ∙ ap (λ r. colon ∷ₛ r) (append.nil t)

cut-append : (s t : String) → NoColon s → cut (s ++ₛ (":" ++ₛ t)) ≡ some (s, t)
unfolding cut
cut-append empty t h = ap cut (append.nil (":" ++ₛ t) ∙ with_colon t)
cut-append (c ∷ₛ s) t (apart, h) =
    ap cut (append.cons c s (":" ++ₛ t)) ∙ rw (apart, cut-append s t h) refl

-- A board that can be named: the cross-game one, or that of a game of the registry, whose slug has no
-- colon and is not the cross-game name.
abbrev pub IsBoard : {F : Type 0} → Registry F → Scope → Type 0
IsBoard registry global = Unit {0}
IsBoard {F = F} registry (game slug) =
    (d : Definition F) × (get registry slug ≡ ok d)
    × NoColon slug
    × (str_eq slug "" ≡ false)
    × (str_eq slug global_scope_name ≡ false)

period_name_ne : (p : Period) → str_eq (period_name p) "" ≡ false
period_name_ne all_time = refl
period_name_ne daily = refl
period_name_ne weekly = refl
period_name_ne monthly = refl

-- The name of a board that can be named parses to the board.
parse_channel-channel_name :
    {F : Type 0} (registry : Registry F) (c : Channel)
    → IsBoard registry c.scope
    → parse_channel registry (channel_name c) ≡ some c
unfolding parse_channel channel_name scope_of
parse_channel-channel_name registry c board = by_scope c.scope board
  where
    by_scope :
        (s : Scope)
        → IsBoard registry s
        → parse_parts registry (cut (scope_name s ++ₛ (":" ++ₛ period_name c.period)))
          ≡ some (record { scope = s; period = c.period })
    by_scope global board =
        rw
          (cut-append "global" (period_name c.period)
            (refl, (refl, (refl, (refl, (refl, (refl, tt)))))))
          (rw (period_name_ne c.period, parse_period-period_name c.period) refl)
    by_scope (game slug) (d, known, plain, there, other) =
        rw (cut-append slug (period_name c.period) plain) (
          rw
            (there, period_name_ne c.period, other, known, parse_period-period_name c.period, there)
            refl)

abbrev before_cut : Option (String × String) → String
before_cut none = empty
before_cut (some (a, b)) = a

abbrev after_cut : Option (String × String) → String
after_cut none = empty
after_cut (some (a, b)) = b

cut_sound : (raw s p : String) → cut raw ≡ some (s, p) → raw ≡ s ++ₛ (":" ++ₛ p)
unfolding cut
cut_sound empty s p e = cc (e)
cut_sound (c ∷ₛ rest) s p e = by_char (Bool-cases (code c == 58)) (cut rest) refl (cut_sound rest)
  where
    by_char :
        ((code c == 58) ≡ true) ⊎ ((code c == 58) ≡ false)
        → (o : Option (String × String)) → cut rest ≡ o
        → ((a b : String) → cut rest ≡ some (a, b) → rest ≡ a ++ₛ (":" ++ₛ b))
        → (c ∷ₛ rest) ≡ s ++ₛ (":" ++ₛ p)
    by_char (inl hit) o is below =
        let whole : some (empty, rest) ≡ some (s, p) = rw hit at e in
        let front : empty ≡ s = ap before_cut whole in
        let back : rest ≡ p = ap after_cut whole in
        let is_colon : code c ≡ code colon = ground arith in
        ap (λ d. d ∷ₛ rest) (Char-path c colon is_colon)
        ∙ sym (append.nil (":" ++ₛ rest) ∙ with_colon rest)
        ∙ ap (λ a. a ++ₛ (":" ++ₛ rest)) front
        ∙ ap (λ b. s ++ₛ (":" ++ₛ b)) back
    by_char (inr miss) none is below =
        (let whole : none ≡ some (s, p) = rw (miss, is) at e in cc (whole))
    by_char (inr miss) (some (a, b)) is below =
        let whole : some (c ∷ₛ a, b) ≡ some (s, p) = rw (miss, is) at e in
        let front : c ∷ₛ a ≡ s = ap before_cut whole in
        let back : b ≡ p = ap after_cut whole in
        ap (λ r. c ∷ₛ r) (below a b is)
        ∙ sym (append.cons c a (":" ++ₛ b))
        ∙ ap (λ x. x ++ₛ (":" ++ₛ b)) front
        ∙ ap (λ x. s ++ₛ (":" ++ₛ x)) back

channel_of-some :
    (x : Option Scope) (y : Option Period) (c : Channel)
    → channel_of x y ≡ some c
    → (x ≡ some c.scope) × (y ≡ some c.period)
channel_of-some none y c e = cc (e)
channel_of-some (some s) none c e = cc (e)
channel_of-some (some s) (some p) c e = (ap scope_part e, ap period_part e)
  where
    scope_part : Option Channel → Option Scope
    scope_part none = none
    scope_part (some d) = some d.scope

    period_part : Option Channel → Option Period
    period_part none = none
    period_part (some d) = some d.period

game_scope-some :
    {A : Type 0} (r : Result Games.Error A) (s : Slug) (x : Scope)
    → game_scope r s ≡ some x
    → scope_of s ≡ x
game_scope-some (ok d) s x e = cc (e)
game_scope-some (err b) s x e = cc (e)

parse_parts_sound :
    {F : Type 0} (registry : Registry F) (s p : String) (c : Channel)
    → parse_parts registry (some (s, p)) ≡ some c
    → (scope_name c.scope ≡ s) × (period_name c.period ≡ p)
unfolding scope_of
parse_parts_sound registry s p c e = elim (Bool-cases (str_eq s "")) [
  | inl blank ↦ absurd (nothing (rw blank at e))
  | inr there ↦ elim (Bool-cases (str_eq p "")) [
    | inl blank ↦ absurd (nothing (rw (there, blank) at e))
    | inr named ↦
        let (on_scope, on_period) =
          channel_of-some
            (if str_eq s global_scope_name then some global else game_scope (get registry s) s)
            (parse_period p) c (rw (there, named) at e) in
        (
          by_scope (Bool-cases (str_eq s global_scope_name)) there on_scope,
          by_period (parse_period_sound p c.period on_period) named,
        )
  ]
]
  where
    nothing : none ≡ some c → ⊥
    nothing e = cc (e)

    by_period :
        (p ≡ period_name c.period) ⊎ ((p ≡ "") × (c.period ≡ all_time))
        → str_eq p "" ≡ false
        → period_name c.period ≡ p
    by_period (inl same) named = sym same
    by_period (inr (blank, other)) named = (let gone = (eq_iff p "").1 blank in cc (gone, named))

    by_scope :
        (str_eq s global_scope_name ≡ true) ⊎ (str_eq s global_scope_name ≡ false)
        → str_eq s "" ≡ false
        → (if str_eq s global_scope_name then some global else game_scope (get registry s) s)
          ≡ some c.scope
        → scope_name c.scope ≡ s
    by_scope (inl hit) there on_scope =
        let is_global : some global ≡ some c.scope = rw hit at on_scope in
        let one : global ≡ c.scope = cc (is_global) in
        ap scope_name (sym one) ∙ sym ((eq_iff s global_scope_name).0 hit)
    by_scope (inr miss) there on_scope =
        let is_game : game_scope (get registry s) s ≡ some c.scope = rw miss at on_scope in
        let one : scope_of s ≡ c.scope = game_scope-some (get registry s) s c.scope is_game in
        let own : game s ≡ c.scope = rw there at one in ap scope_name (sym own)

-- A text that parses is the name of what it parses to.
channel_name-parse_channel :
    {F : Type 0} (registry : Registry F) (raw : String) (c : Channel)
    → parse_channel registry raw ≡ some c
    → channel_name c ≡ raw
unfolding parse_channel channel_name
channel_name-parse_channel registry raw c e = by_parts (cut raw) refl
  where
    by_parts : (o : Option (String × String)) → cut raw ≡ o → channel_name c ≡ raw
    by_parts none is = (let gone : none ≡ some c = rw is at e in cc (gone))
    by_parts (some (s, p)) is =
        let (scope, period) = parse_parts_sound registry s p c (rw is at e) in
        rw (scope, period) (sym (cut_sound raw s p is))

-- For the cross-game board, or that of a game of the registry whose slug is not empty, is not the
-- cross-game name and has no colon: a text parses to a channel on it exactly when it is the
-- channel's name.
pub parse_channel_iff :
    {F : Type 0} (registry : Registry F) (raw : String) (c : Channel)
    → IsBoard registry c.scope
    → (parse_channel registry raw ≡ some c) ↔ (raw ≡ channel_name c)
parse_channel_iff registry raw c board = (
  λ e. sym (channel_name-parse_channel registry raw c e),
  λ e. ap (parse_channel registry) e ∙ parse_channel-channel_name registry c board,
)
