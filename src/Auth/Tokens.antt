-- ===== src/Auth/Tokens.antt =====
-- The table `refresh_tokens` and the queries of internal/store/db/refresh_tokens.sql.go on it, and
-- the table `users` with those queries of internal/store/db/users.sql.go that internal/auth calls.
-- A token's hash is its key, for the unique index on it.
use Prim.Native.String.{String}
use text.Mathlib.Text.{◌==◌ as str_eq}
use podium.Base.{
  ℕ, Bool, true, false, ◌&&◌, ◌||◌, Option, none, some, List, [], ◌∷◌, ltb, ◌==◌, if◌then◌else◌,
}
use podium.Games.Common.{Time}

-- A hash and a family's id are numbers here: 256 and 128 bits.
pub record RefreshToken : Type 0 where
  pub user_id : ℕ
  pub family : ℕ
  pub expires_at : Time
  pub used_at : Option Time
  pub revoked_at : Option Time

pub record User : Type 0 where
  pub id : ℕ
  pub username : String
  pub email : String
  pub password_hash : String

pub record Store : Type 0 where
  pub tokens : ℕ → Option RefreshToken
  pub users : List User
  pub next_user : ℕ

abbrev pub is_null : Option Time → Bool
is_null none = true
is_null (some at) = false

unfoldable pub is_claimable : Time → RefreshToken → Bool
is_claimable now t = is_null t.used_at && (is_null t.revoked_at && ltb now t.expires_at)

abbrev pub if_claimable : Bool → RefreshToken → Option RefreshToken
if_claimable true t = some t
if_claimable false t = none

abbrev pub claimable_row : Time → Option RefreshToken → Option RefreshToken
claimable_row now none = none
claimable_row now (some t) = if_claimable (is_claimable now t) t

abbrev pub set_token : ℕ → RefreshToken → (ℕ → Option RefreshToken) → ℕ → Option RefreshToken
set_token h t tokens k = if h == k then some t else tokens k

abbrev pub claimed : Time → ℕ → Store → Option RefreshToken → Option (RefreshToken × Store)
claimed now h s none = none
claimed now h s (some t) =
    some (t, record s { tokens = set_token h (record t { used_at = some now }) s.tokens })

-- ClaimRefreshToken: the row that it returns, if any, and the table after it.
unfoldable pub claim_refresh_token : Time → ℕ → Store → Option (RefreshToken × Store)
unfolding is_claimable
claim_refresh_token now h s = claimed now h s (claimable_row now (s.tokens h))

abbrev pub revoked_row : Bool → Time → ℕ → Option RefreshToken → Option RefreshToken
revoked_row seen now f none = none
revoked_row seen now f (some t) = some (
    if seen && ((t.family == f) && is_null t.revoked_at)
    then record t { revoked_at = some now }
    else t)

-- RevokeRefreshTokenFamily: of the family, the rows that the update's snapshot has. A row that a
-- refresh inserts at the same time is not among them.
unfoldable pub revoke_refresh_token_family : Time → (ℕ → Bool) → ℕ → Store → Store
revoke_refresh_token_family now sees f s = record s {
  tokens = λ h. revoked_row (sees h) now f (s.tokens h);
}

abbrev pub kept_row : Time → Option RefreshToken → Option RefreshToken
kept_row now none = none
kept_row now (some t) = if ltb t.expires_at now then none else some t

-- DeleteExpiredRefreshTokens
unfoldable pub delete_expired_refresh_tokens : Time → Store → Store
delete_expired_refresh_tokens now s = record s { tokens = λ h. kept_row now (s.tokens h) }

abbrev pub inserted : ℕ → RefreshToken → Store → Option RefreshToken → Option Store
inserted h x s (some t) = none
inserted h x s none = some (record s { tokens = set_token h x s.tokens })

abbrev pub new_token : ℕ → ℕ → Time → RefreshToken
new_token user family expires_at = record {
  user_id = user;
  family = family;
  expires_at = expires_at;
  used_at = none;
  revoked_at = none;
}

-- CreateRefreshToken, which fails on a hash that the table has.
unfoldable pub create_refresh_token : ℕ → ℕ → ℕ → Time → Store → Option Store
create_refresh_token user family h expires_at s =
    inserted h (new_token user family expires_at) s (s.tokens h)

-- `lower` is Postgres's.
module _ (lower : String → String) where
  abbrev pub same_text : String → String → Bool
  same_text a b = str_eq (lower a) (lower b)

  -- GetUserByLogin: the first row that fits, in the order of the table.
  unfoldable pub get_user_by_login : String → List User → Option User
  get_user_by_login login [] = none
  get_user_by_login login (u ∷ us) =
      if same_text u.username login || same_text u.email login
      then some u
      else get_user_by_login login us

  unfoldable pub has_username : String → List User → Bool
  has_username name [] = false
  has_username name (u ∷ us) = same_text u.username name || has_username name us

  unfoldable pub has_email : String → List User → Bool
  has_email email [] = false
  has_email email (u ∷ us) = same_text u.email email || has_email email us

-- UpdateUserPasswordHash
unfoldable pub update_user_password_hash : ℕ → String → List User → List User
update_user_password_hash id hash [] = []
update_user_password_hash id hash (u ∷ us) =
    (if u.id == id then record u { password_hash = hash } else u)
    ∷ update_user_password_hash id hash us
