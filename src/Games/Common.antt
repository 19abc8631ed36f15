-- ===== src/Games/Common.antt =====
-- internal/games/games.go: what every game shares. A time is a number of nanoseconds; Go's zero
-- time and nil pointers are `none`. A JSON text is a list of bytes, and its decoder a parameter.
use podium.Base.{
  ℕ, Bool, Option, none, some, List, [], ◌∷◌, Result, ok, err, or_fail, ◌>>=◌, ◌≡◌, >>=-ok,
  or_fail-ok,
}

abbrev pub Bytes : Type 0
Bytes = List ℕ

abbrev pub Time : Type 0
Time = ℕ

-- The failures of an engine; `index_out_of_range` is Go's panic at a slice index, and
-- `bad_state` a stored state that does not decode.
pub data Error : Type 0 where
  invalid_move no_such_game deadline_passed already_done bad_state : Error
  encode_failed no_words : Error
  index_out_of_range : Error

pub record Outcome : Type 0 where
  pub correct : Bool
  pub done : Bool
  pub hold_until : Option Time

abbrev pub outcome : Bool → Bool → Outcome
outcome c d = record { correct = c; done = d; hold_until = none }

-- A move is required, and has to decode; anything else is an invalid move.
unfoldable pub decode_move {ℓ} : {M : Type ℓ} → (Bytes → Option M) → Bytes → Result Error M
decode_move decoder [] = err invalid_move
decode_move decoder (b ∷ bs) = or_fail (decoder (b ∷ bs)) invalid_move

decode_move-ok {ℓ} :
    {M : Type ℓ} (decoder : Bytes → Option M) (raw : Bytes) {m : M}
    → decode_move decoder raw ≡ ok m
    → decoder raw ≡ some m
unfolding decode_move
decode_move-ok decoder [] e = cc
decode_move-ok decoder (b ∷ bs) e = or_fail-ok (decoder (b ∷ bs)) invalid_move e

-- A move that is accepted has decoded.
pub decoded {ℓ κ} :
    {M : Type ℓ} {A : Type κ} (decoder : Bytes → Option M) (raw : Bytes) (f : M → Result Error A)
    {r : A}
    → (decode_move decoder raw >>= f) ≡ ok r
    → (m : M) × (decoder raw ≡ some m) × (f m ≡ ok r)
decoded decoder raw f e =
    let (m, first, rest) = >>=-ok (decode_move decoder raw) f e in
    (m, decode_move-ok decoder raw first, rest)
