-- ===== src/Realtime/Tickets.antt =====
-- internal/realtime/ticket.go: tickets for the handshake of a connection, over the keys of Redis that
-- hold them. Times are milliseconds of Redis's clock.
use Prim.Native.String.{String}
use text.Mathlib.Text.{◌==◌ as str_eq}
use text.Mathlib.TextPositions.{eq_refl}
use podium.Base.{
  ℕ, ◌+◌, ◌<◌, ◌≡◌, refl, ◌∙◌, inl, inr, Bool-cases, false, Option, none, some, List, [], ◌∷◌,
  Result, ok, err, leb, arith, if◌then◌else◌,
}

pub data Error : Type 0 where
  ticket_invalid unavailable : Error

-- What became of Redis's command: an error may leave it run or not.
pub data Call : Type 0 where
  answered lost refused : Call

-- A user's id and the time at which Redis drops it.
pub record Ticket : Type 0 where
  pub user_id : ℕ
  pub expires : ℕ

abbrev pub Keys : Type 0
Keys = String → Option Ticket

-- What an action meets: the clock, the token that it draws, or no token, and the command's fate.
pub record Moment : Type 0 where
  pub now : ℕ
  pub drawn : Option String
  pub call : Call

abbrev pub set_key : String → Option Ticket → Keys → Keys
set_key token value keys other = if str_eq token other then value else keys other

abbrev pub ran : {A : Type 0} → Call → Result Error A → Keys → Keys → Result Error A × Keys
ran answered reply after before = (reply, after)
ran lost reply after before = (err unavailable, after)
ran refused reply after before = (err unavailable, before)

abbrev pub stored : ℕ → Moment → ℕ → Option String → Keys → Result Error String × Keys
stored ttl at user none keys = (err unavailable, keys)
stored ttl at user (some token) keys =
    ran at.call (ok token)
      (set_key token (some (record { user_id = user; expires = at.now + ttl })) keys) keys

-- Tickets.Issue
unfoldable pub issue : ℕ → Moment → ℕ → Keys → Result Error String × Keys
issue ttl at user keys = stored ttl at user at.drawn keys

abbrev pub owner : ℕ → Option Ticket → Result Error ℕ
owner now none = err ticket_invalid
owner now (some t) = if leb t.expires now then err ticket_invalid else ok t.user_id

-- Tickets.Redeem, with GETDEL.
unfoldable pub redeem : Moment → String → Keys → Result Error ℕ × Keys
redeem at token keys =
    if str_eq token ""
    then (err ticket_invalid, keys)
    else ran at.call (owner at.now (keys token)) (set_key token none keys) keys

pub data Action : Type 0 where
  issuing : ℕ → Action
  redeeming : String → Action

unfoldable pub act : ℕ → List (Moment × Action) → Keys → Keys
unfolding issue redeem
act ttl [] keys = keys
act ttl ((at, issuing user) ∷ rest) keys = act ttl rest (issue ttl at user keys).1
act ttl ((at, redeeming token) ∷ rest) keys = act ttl rest (redeem at token keys).1

abbrev pub DrawsOther : String → Option String → Type 0
DrawsOther token none = Unit {0}
DrawsOther token (some other) = str_eq other token ≡ false

-- Actions that neither draw a token nor redeem it.
abbrev pub Others : String → List (Moment × Action) → Type 0
Others token [] = Unit {0}
Others token ((at, issuing user) ∷ rest) = DrawsOther token at.drawn × Others token rest
Others token ((at, redeeming other) ∷ rest) = (str_eq other token ≡ false) × Others token rest

-- Actions that do not draw a token, but may redeem it.
abbrev pub Draws : String → List (Moment × Action) → Type 0
Draws token [] = Unit {0}
Draws token ((at, issuing user) ∷ rest) = DrawsOther token at.drawn × Draws token rest
Draws token ((at, redeeming other) ∷ rest) = Draws token rest

ran-key :
    {A : Type 0} (call : Call) (reply : Result Error A) (after before : Keys) (token : String)
    (o : Option Ticket)
    → after token ≡ o
    → before token ≡ o
    → (ran call reply after before).1 token ≡ o
ran-key answered reply after before token o a b = a
ran-key lost reply after before token o a b = a
ran-key refused reply after before token o a b = b

issue-key :
    (ttl : ℕ) (at : Moment) (user : ℕ) (keys : Keys) (token : String)
    → DrawsOther token at.drawn
    → (issue ttl at user keys).1 token ≡ keys token
unfolding issue
issue-key ttl at user keys token other = by_draw at.drawn other
  where
    by_draw :
        (o : Option String) → DrawsOther token o → (stored ttl at user o keys).1 token ≡ keys token
    by_draw none other = refl
    by_draw (some drawn) other =
        ran-key at.call (ok drawn)
          (set_key drawn (some (record { user_id = user; expires = at.now + ttl })) keys) keys token
          (keys token) (rw other refl) refl

redeem-other :
    (at : Moment) (other token : String) (keys : Keys)
    → str_eq other token ≡ false
    → (redeem at other keys).1 token ≡ keys token
unfolding redeem
redeem-other at other token keys apart = elim (Bool-cases (str_eq other "")) [
  | inl blank ↦ rw blank refl
  | inr named ↦ rw named (
      ran-key at.call (owner at.now (keys other)) (set_key other none keys) keys token (keys token)
        (rw apart refl) refl)
]

act-Others :
    (ttl : ℕ) (token : String) (actions : List (Moment × Action)) (keys : Keys)
    → Others token actions
    → act ttl actions keys token ≡ keys token
unfolding act
act-Others ttl token [] keys others = refl
act-Others ttl token ((at, issuing user) ∷ rest) keys (other, others) =
    act-Others ttl token rest (issue ttl at user keys).1 others
    ∙ issue-key ttl at user keys token other
act-Others ttl token ((at, redeeming other) ∷ rest) keys (apart, others) =
    act-Others ttl token rest (redeem at other keys).1 others
    ∙ redeem-other at other token keys apart

redeem-gone :
    (at : Moment) (other token : String) (keys : Keys)
    → keys token ≡ none
    → (redeem at other keys).1 token ≡ none
unfolding redeem
redeem-gone at other token keys gone = elim (Bool-cases (str_eq other token)) [
  | inr apart ↦ redeem-other at other token keys apart ∙ gone
  | inl same ↦ elim (Bool-cases (str_eq other "")) [
    | inl blank ↦ rw blank gone
    | inr named ↦ rw named (
        ran-key at.call (owner at.now (keys other)) (set_key other none keys) keys token none
          (rw same refl) gone)
  ]
]

act-Draws :
    (ttl : ℕ) (token : String) (actions : List (Moment × Action)) (keys : Keys)
    → Draws token actions
    → keys token ≡ none
    → act ttl actions keys token ≡ none
unfolding act
act-Draws ttl token [] keys draws gone = gone
act-Draws ttl token ((at, issuing user) ∷ rest) keys (other, draws) gone =
    act-Draws ttl token rest (issue ttl at user keys).1 draws
      (issue-key ttl at user keys token other ∙ gone)
act-Draws ttl token ((at, redeeming other) ∷ rest) keys draws gone =
    act-Draws ttl token rest (redeem at other keys).1 draws (redeem-gone at other token keys gone)

-- A redeemed ticket, when its command is answered.
redeem-held :
    (at : Moment) (token : String) (keys : Keys) (t : Ticket)
    → at.call ≡ answered
    → str_eq token "" ≡ false
    → keys token ≡ some t
    → at.now < t.expires
    → ((redeem at token keys).0 ≡ ok t.user_id) × ((redeem at token keys).1 token ≡ none)
unfolding redeem
redeem-held at token keys t got named held before =
    let alive : leb t.expires at.now ≡ false = ground arith in
    (rw (named, got, held, alive) refl, rw (named, got, eq_refl token) refl)

redeem-missing :
    (at : Moment) (token : String) (keys : Keys)
    → at.call ≡ answered
    → str_eq token "" ≡ false
    → keys token ≡ none
    → (redeem at token keys).0 ≡ err ticket_invalid
unfolding redeem
redeem-missing at token keys got named gone = rw (named, got, gone) refl

issue-drawn :
    (ttl user : ℕ) (at : Moment) (token : String) (keys : Keys)
    → at.drawn ≡ some token
    → at.call ≡ answered
    → (issue ttl at user keys).1 token ≡ some (record { user_id = user; expires = at.now + ttl })
unfolding issue
issue-drawn ttl user at token keys drawn set = rw (drawn, set, eq_refl token) refl

-- With its commands answered, a ticket that was issued, whose token is not empty and is neither
-- drawn nor redeemed in between, is redeemed for its user before it expires; and from then on,
-- whatever is issued and redeemed with whatever failures, as long as the token is not drawn again,
-- it is not valid.
pub ticket_once :
    (ttl user : ℕ) (at first last : Moment) (token : String) (keys : Keys)
    (between later : List (Moment × Action))
    → at.drawn ≡ some token
    → at.call ≡ answered
    → first.call ≡ answered
    → last.call ≡ answered
    → str_eq token "" ≡ false
    → Others token between
    → Draws token later
    → first.now < at.now + ttl
    → ((redeem first token (act ttl between (issue ttl at user keys).1)).0 ≡ ok user)
      × ((redeem last token
            (act ttl later (redeem first token (act ttl between (issue ttl at user keys).1)).1)).0
          ≡ err ticket_invalid)
ticket_once ttl user at first last token keys between later drawn set got again named others draws
      before =
    let keys' : Keys = act ttl between (issue ttl at user keys).1 in
    let held =
      act-Others ttl token between (issue ttl at user keys).1 others
      ∙ issue-drawn ttl user at token keys drawn set in
    let (given, gone) =
      redeem-held first token keys' (record { user_id = user; expires = at.now + ttl }) got named
        held before in
    (
      given,
      redeem-missing last token (act ttl later (redeem first token keys').1) again named
          (act-Draws ttl token later (redeem first token keys').1 draws gone),
    )
