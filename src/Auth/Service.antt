-- ===== src/Auth/Service.antt =====
-- internal/auth/service.go. A request meets the clocks, the numbers that it draws and, for each
-- call, whether it is done, refused, or done without its answer. Passwords and the signature of
-- access tokens are parameters.
pub mod Steps
pub mod Families
pub mod Rotation
pub mod Spent
use Prim.Native.String.{String}
use podium.Base.{
  ℕ, ◌+◌, Bool, true, false, not, Option, none, some, List, [], ◌∷◌, ◌++◌, Result, ok, err,
  if◌then◌else◌,
}
use podium.Games.Common.{Time}
use podium.Auth.Tokens.{
  RefreshToken, User, Store, is_null, claim_refresh_token, revoke_refresh_token_family,
  delete_expired_refresh_tokens, create_refresh_token, get_user_by_login, has_username, has_email,
  update_user_password_hash,
}

pub data Error : Type 0 where
  invalid_credentials username_taken email_taken invalid_token token_expired token_reused
        unavailable :
      Error

pub data Call : Type 0 where
  hash create_user look_up update_hash begin claim sign draw create load revoke commit clean : Call

pub data Fate : Type 0 where
  done lost refused : Fate

-- The database's clock and the host's, the refresh token and the family that a request draws, and
-- the hashes of the tokens that the request's update of a family sees.
pub record Env : Type 0 where
  pub now : Time
  pub clock : Time
  pub drawn : String
  pub new_family : ℕ
  pub salt : ℕ
  pub fate : Call → Fate
  pub sees : ℕ → Bool

pub record Pair : Type 0 where
  pub access_token : String
  pub access_expires_at : Time
  pub refresh_token : String
  pub refresh_expires_at : Time

-- internal/auth/password.go with Argon2, the signature of JWT, SHA-256 and Postgres's lower.
pub record Secrets : Type 0 where
  pub hash_password : ℕ → String → String
  -- `none` is the error of a hash that does not decode.
  pub verify : String → String → Option Bool
  pub needs_rehash : String → Bool
  pub sign_access : ℕ → Time → String
  pub digest : String → ℕ
  pub lower : String → String

abbrev pub is_done : Fate → Bool
is_done done = true
is_done lost = false
is_done refused = false

abbrev pub fails : Env → Call → Bool
fails e c = not (is_done (e.fate c))

-- A call that writes, from the reply and the tables that it gives.
abbrev pub settled : {A : Type 0} → Fate → Result Error A → Store → Store → Result Error A × Store
settled done reply after before = (reply, after)
settled lost reply after before = (err unavailable, after)
settled refused reply after before = (err unavailable, before)

module _ (k : Secrets) (access_ttl refresh_ttl : Time) where
  open k use {hash_password, verify, needs_rehash, sign_access, digest, lower}

  abbrev pub pair_of : Env → ℕ → Pair
  pair_of e user = record {
    access_token = sign_access user (e.clock + access_ttl);
    access_expires_at = e.clock + access_ttl;
    refresh_token = e.drawn;
    refresh_expires_at = e.clock + refresh_ttl;
  }

  abbrev pub stored : Env → ℕ → Option Store → Store → Result Error Pair × Store
  stored e user none s = (err unavailable, s)
  stored e user (some after) s = settled (e.fate create) (ok (pair_of e user)) after s

  -- issuePair
  unfoldable pub issue_pair : Env → ℕ → ℕ → Store → Result Error Pair × Store
  unfolding create_refresh_token
  issue_pair e user family s =
      if fails e sign
      then (err unavailable, s)
      else (if fails e draw
          then (err unavailable, s)
          else stored e user
              (create_refresh_token user family (digest e.drawn) (e.clock + refresh_ttl) s) s)

  abbrev pub with_user : User → Result Error Pair × Store → Result Error (User × Pair) × Store
  with_user u (ok pair, s) = (ok (u, pair), s)
  with_user u (err x, s) = (err x, s)

  abbrev pub after_reply :
      {A B : Type 0}
      → Result Error A × Store
      → (A → Store → Result Error B × Store)
      → Result Error B × Store
  after_reply (ok a, s) f = f a s
  after_reply (err x, s) f = (err x, s)

  -- CreateUser
  unfoldable pub create_user_row :
      Env → String → String → String → Store → Result Error User × Store
  unfolding has_username has_email
  create_user_row e username email encoded s =
      let user : User = record {
        id = s.next_user;
        username = username;
        email = email;
        password_hash = encoded;
      } in
      if has_username lower username s.users
      then (err username_taken, s)
      else (if has_email lower email s.users
          then (err email_taken, s)
          else settled (e.fate create_user) (ok user)
              (record s { users = s.users ++ user ∷ []; next_user = s.next_user + 1 }) s)

  -- Register
  unfoldable pub register :
      Env → String → String → String → Store → Result Error (User × Pair) × Store
  unfolding create_user_row issue_pair
  register e username email password s =
      if fails e hash
      then (err unavailable, s)
      else after_reply (create_user_row e username email (hash_password e.salt password) s)
          (λ user later. with_user user (issue_pair e user.id e.new_family later))

  -- upgradeHashIfStale, whose errors are dropped.
  unfoldable pub upgrade_hash_if_stale : Env → User → String → Store → Store
  unfolding update_user_password_hash
  upgrade_hash_if_stale e user password s =
      if needs_rehash user.password_hash
      then (if fails e hash
          then s
          else (settled (e.fate update_hash) (ok user)
              (record s {
                users = update_user_password_hash user.id (hash_password e.salt password) s.users;
              })
              s).1)
      else s

  abbrev pub checked :
      Env → User → String → Option Bool → Store → Result Error (User × Pair) × Store
  checked e user password none s = (err unavailable, s)
  checked e user password (some false) s = (err invalid_credentials, s)
  checked e user password (some true) s =
      with_user user (issue_pair e user.id e.new_family (upgrade_hash_if_stale e user password s))

  abbrev pub looked_up : Env → String → Option User → Store → Result Error (User × Pair) × Store
  looked_up e password none s = (err invalid_credentials, s)
  looked_up e password (some user) s =
      checked e user password (verify user.password_hash password) s

  -- Login
  unfoldable pub login : Env → String → String → Store → Result Error (User × Pair) × Store
  unfolding issue_pair upgrade_hash_if_stale get_user_by_login
  login e name password s =
      if fails e look_up
      then (err unavailable, s)
      else looked_up e password (get_user_by_login lower name s.users) s

  -- The branch of a token that has been used.
  abbrev pub reused : Env → RefreshToken → Store → Result Error Pair × Store
  reused e t s =
      if fails e revoke
      then (err unavailable, s)
      else settled (e.fate commit) (err token_reused)
          (revoke_refresh_token_family e.now e.sees t.family s) s

  abbrev pub rejected : Env → Option RefreshToken → Store → Result Error Pair × Store
  rejected e none s = (err invalid_token, s)
  rejected e (some t) s =
      if is_null t.used_at
      then (if is_null t.revoked_at then (err token_expired, s) else (err invalid_token, s))
      else reused e t s

  -- rejectClaim
  unfoldable pub reject_claim : Env → ℕ → Store → Result Error Pair × Store
  unfolding revoke_refresh_token_family
  reject_claim e h s = if fails e load then (err unavailable, s) else rejected e (s.tokens h) s

  -- The end of a transaction that began with the tables `before`.
  abbrev pub committed : Env → Result Error Pair × Store → Store → Result Error Pair × Store
  committed e (err x, after) before = (err x, before)
  committed e (ok pair, after) before = settled (e.fate commit) (ok pair) after before

  abbrev pub claimed_with :
      Env → ℕ → Option (RefreshToken × Store) → Store → Result Error Pair × Store
  claimed_with e h none s = reject_claim e h s
  claimed_with e h (some (t, after)) s = committed e (issue_pair e t.user_id t.family after) s

  -- Refresh
  unfoldable pub refresh : Env → String → Store → Result Error Pair × Store
  unfolding issue_pair reject_claim claim_refresh_token
  refresh e raw s =
      if fails e begin
      then (err unavailable, s)
      else (if fails e claim
          then (err unavailable, s)
          else claimed_with e (digest raw) (claim_refresh_token e.now (digest raw) s) s)

  abbrev pub logged_out : Env → Option RefreshToken → Store → Result Error (Unit {0}) × Store
  logged_out e none s = (ok tt, s)
  logged_out e (some t) s =
      settled (e.fate revoke) (ok tt) (revoke_refresh_token_family e.now e.sees t.family s) s

  -- Logout
  unfoldable pub logout : Env → String → Store → Result Error (Unit {0}) × Store
  unfolding revoke_refresh_token_family
  logout e raw s =
      if fails e load then (err unavailable, s) else logged_out e (s.tokens (digest raw)) s

  -- The scheduled removal of tokens that have expired.
  unfoldable pub clean_up : Env → Store → Result Error (Unit {0}) × Store
  unfolding delete_expired_refresh_tokens
  clean_up e s = settled (e.fate clean) (ok tt) (delete_expired_refresh_tokens e.now s) s

pub data Request : Type 0 where
  registering : String → String → String → Request
  logging_in : String → String → Request
  refreshing : String → Request
  logging_out : String → Request
  cleaning_up : Request

module _ (k : Secrets) (access_ttl refresh_ttl : Time) where
  -- The tables after a request.
  unfoldable pub serve : Env → Request → Store → Store
  serve e (registering username email password) s =
      (register k access_ttl refresh_ttl e username email password s).1
  serve e (logging_in name password) s = (login k access_ttl refresh_ttl e name password s).1
  serve e (refreshing raw) s = (refresh k access_ttl refresh_ttl e raw s).1
  serve e (logging_out raw) s = (logout k access_ttl refresh_ttl e raw s).1
  serve e cleaning_up s = (clean_up k access_ttl refresh_ttl e s).1

  unfoldable pub served : List (Env × Request) → Store → Store
  unfolding serve
  served [] s = s
  served ((e, request) ∷ rest) s = served rest (serve e request s)
