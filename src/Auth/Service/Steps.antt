-- ===== src/Auth/Service/Steps.antt =====
-- internal/auth/service.go: the four ways in which a request changes the tokens.
use Prim.Native.String.{String}
use podium.Base.{
  ℕ, ◌+◌, ◌≡◌, refl, inl, inr, Bool, true, false, Option, none, some, [], ◌∷◌, ◌++◌, Result, ok,
  err, if◌then◌else◌, Bool-cases,
}
use podium.Games.Common.{Time}
use podium.Auth.Tokens.{
  RefreshToken, User, Store, is_null, is_claimable, claimable_row, set_token, claimed, inserted,
  new_token, revoked_row, kept_row, claim_refresh_token, revoke_refresh_token_family,
  delete_expired_refresh_tokens, create_refresh_token, get_user_by_login, has_username, has_email,
  update_user_password_hash,
}
use podium.Auth.Service.{
  Error, invalid_token, token_expired, token_reused, unavailable, username_taken, email_taken, hash,
  create_user, look_up, update_hash, begin, claim, sign, draw, create, load, revoke, commit, clean,
  Fate, done, lost, refused, Env, Pair, Secrets, fails, settled, pair_of, stored, issue_pair,
  with_user, after_reply, create_user_row, register, upgrade_hash_if_stale, checked, looked_up,
  login, reused, rejected, reject_claim, committed, claimed_with, refresh, logged_out, logout,
  clean_up, Request, registering, logging_in, refreshing, logging_out, cleaning_up, serve,
}

abbrev pub Table : Type 0
Table = ℕ → Option RefreshToken

abbrev pub used : Time → RefreshToken → RefreshToken
used now t = record t { used_at = some now }

-- What holds of the tokens before a request (P) and after it (Q).
pub record Keeps (k : Secrets) (e : Env) (P Q : Table → Type 0) : Type 0 where
  pub stay : (t : Table) → P t → Q t
  pub by_revoke : (f : ℕ) (t : Table) → P t → Q (λ h. revoked_row (e.sees h) e.now f (t h))
  pub by_clean : (t : Table) → P t → Q (λ h. kept_row e.now (t h))
  pub by_sign_in :
      (t : Table) (x : RefreshToken)
      → t (k.digest e.drawn) ≡ none
      → x.family ≡ e.new_family
      → P t
      → Q (set_token (k.digest e.drawn) x t)
  pub by_claim :
      (t : Table) (h : ℕ) (x : RefreshToken)
      → t h ≡ some x
      → is_claimable e.now x ≡ true
      → P t
      → Q (set_token h (used e.now x) t)
  pub by_rotation :
      (t : Table) (h : ℕ) (x y : RefreshToken)
      → t h ≡ some x
      → is_claimable e.now x ≡ true
      → y.family ≡ x.family
      → set_token h (used e.now x) t (k.digest e.drawn) ≡ none
      → P t
      → Q (set_token (k.digest e.drawn) y (set_token h (used e.now x) t))

-- A call that writes leaves the tables of before or of after.
either_settled :
    {A : Type 0} (Q : Table → Type 0) (fate : Fate) (reply : Result Error A) (after before : Store)
    → Q after.tokens
    → Q before.tokens
    → Q (settled fate reply after before).1.tokens
either_settled Q done reply after before a b = a
either_settled Q lost reply after before a b = a
either_settled Q refused reply after before a b = b

either_if :
    {A : Type 0} (Q : Table → Type 0) (b : Bool) (x y : A × Store)
    → Q x.1.tokens
    → Q y.1.tokens
    → Q (if b then x else y).1.tokens
either_if Q true x y hx hy = hx
either_if Q false x y hx hy = hy

module _ (k : Secrets) (access_ttl refresh_ttl : Time) (e : Env) where
  -- The tokens after a token was issued, or an error.
  issue_pair-Keeps :
      (Q : Table → Type 0) (user family : ℕ) (s : Store)
      → Q s.tokens
      → ((x : RefreshToken)
          → s.tokens (k.digest e.drawn) ≡ none
          → x.family ≡ family
          → Q (set_token (k.digest e.drawn) x s.tokens))
      → Q (issue_pair k access_ttl refresh_ttl e user family s).1.tokens
  unfolding issue_pair create_refresh_token
  issue_pair-Keeps Q user family s stay new =
      either_if Q (fails e sign) (err unavailable, s)
        (if fails e draw
          then (err unavailable, s)
          else stored k access_ttl refresh_ttl e user
              (create_refresh_token user family (k.digest e.drawn) (e.clock + refresh_ttl) s) s)
        stay
        (either_if Q (fails e draw) (err unavailable, s)
          (stored k access_ttl refresh_ttl e user
            (create_refresh_token user family (k.digest e.drawn) (e.clock + refresh_ttl) s) s)
          stay (by_row (s.tokens (k.digest e.drawn)) refl))
    where
      x : RefreshToken
      x = new_token user family (e.clock + refresh_ttl)

      by_row :
          (o : Option RefreshToken)
          → s.tokens (k.digest e.drawn) ≡ o
          → Q
              (stored k access_ttl refresh_ttl e user
                (inserted (k.digest e.drawn) x s o)
                s).1.tokens
      by_row (some t) is = stay
      by_row none is =
          either_settled Q (e.fate create) (ok (pair_of k access_ttl refresh_ttl e user))
            (record s { tokens = set_token (k.digest e.drawn) x s.tokens }) s (new x is refl) stay

module _ (k : Secrets) (access_ttl refresh_ttl : Time) (e : Env) (P Q : Table → Type 0)
    (keeps : Keeps k e P Q) where
  committed-Keeps :
      (reply : Result Error Pair × Store) (s : Store)
      → Q reply.1.tokens
      → Q s.tokens
      → Q (committed k access_ttl refresh_ttl e reply s).1.tokens
  committed-Keeps (err x, after) s a b = b
  committed-Keeps (ok pair, after) s a b = either_settled Q (e.fate commit) (ok pair) after s a b

  reject_claim-Keeps :
      (h : ℕ) (s : Store) → P s.tokens → Q (reject_claim k access_ttl refresh_ttl e h s).1.tokens
  unfolding reject_claim revoke_refresh_token_family
  reject_claim-Keeps h s p =
      either_if Q (fails e load) (err unavailable, s)
        (rejected k access_ttl refresh_ttl e (s.tokens h) s) (keeps.stay s.tokens p)
        (by_row (s.tokens h))
    where
      by_row : (o : Option RefreshToken) → Q (rejected k access_ttl refresh_ttl e o s).1.tokens
      by_row none = keeps.stay s.tokens p
      by_row (some t) = by_use (is_null t.used_at)
        where
          by_use :
              (b : Bool)
              → Q
                  (if b
                    then (if is_null t.revoked_at
                        then (err token_expired, s)
                        else (err invalid_token, s))
                    else reused k access_ttl refresh_ttl e t s).1.tokens
          by_use true =
              either_if Q (is_null t.revoked_at) (err token_expired, s) (err invalid_token, s)
                (keeps.stay s.tokens p) (keeps.stay s.tokens p)
          by_use false =
              either_if Q (fails e revoke) (err unavailable, s)
                (settled (e.fate commit) (err token_reused)
                  (revoke_refresh_token_family e.now e.sees t.family s) s)
                (keeps.stay s.tokens p)
                (either_settled Q (e.fate commit) (err token_reused)
                  (revoke_refresh_token_family e.now e.sees t.family s) s
                  (keeps.by_revoke t.family s.tokens p) (keeps.stay s.tokens p))

  refresh-Keeps :
      (raw : String) (s : Store)
      → P s.tokens
      → Q (refresh k access_ttl refresh_ttl e raw s).1.tokens
  unfolding refresh claim_refresh_token
  refresh-Keeps raw s p =
      either_if Q (fails e begin) (err unavailable, s)
        (if fails e claim
          then (err unavailable, s)
          else claimed_with k access_ttl refresh_ttl e h (claim_refresh_token e.now h s) s)
        (keeps.stay s.tokens p)
        (either_if Q (fails e claim) (err unavailable, s)
          (claimed_with k access_ttl refresh_ttl e h (claim_refresh_token e.now h s) s)
          (keeps.stay s.tokens p) (by_row (s.tokens h) refl))
    where
      h : ℕ
      h = k.digest raw

      by_row :
          (o : Option RefreshToken)
          → s.tokens h ≡ o
          → Q
              (claimed_with k access_ttl refresh_ttl e h
                (claimed e.now h s (claimable_row e.now o))
                s).1.tokens
      by_row none is = reject_claim-Keeps h s p
      by_row (some x) is = elim (Bool-cases (is_claimable e.now x)) [
        | inr no_ ↦ rw no_ (reject_claim-Keeps h s p)
        | inl yes_ ↦
            let after : Store = record s { tokens = set_token h (used e.now x) s.tokens } in
            rw yes_ (
              committed-Keeps (issue_pair k access_ttl refresh_ttl e x.user_id x.family after) s
                (issue_pair-Keeps k access_ttl refresh_ttl e Q x.user_id x.family after
                  (keeps.by_claim s.tokens h x is yes_ p)
                  (λ y fresh same. keeps.by_rotation s.tokens h x y is yes_ same fresh p))
                (keeps.stay s.tokens p))
      ]

  sign_in-Keeps :
      (user : User) (s : Store)
      → P s.tokens
      → Q
          (with_user k access_ttl refresh_ttl user
            (issue_pair k access_ttl refresh_ttl e user.id e.new_family s)).1.tokens
  sign_in-Keeps user s p =
      drop_user (issue_pair k access_ttl refresh_ttl e user.id e.new_family s) (
        issue_pair-Keeps k access_ttl refresh_ttl e Q user.id e.new_family s (keeps.stay s.tokens p)
          (λ x fresh same. keeps.by_sign_in s.tokens x fresh same p))
    where
      drop_user :
          (reply : Result Error Pair × Store)
          → Q reply.1.tokens
          → Q (with_user k access_ttl refresh_ttl user reply).1.tokens
      drop_user (ok pair, after) q = q
      drop_user (err x, after) q = q

  login-Keeps :
      (name password : String) (s : Store)
      → P s.tokens
      → Q (login k access_ttl refresh_ttl e name password s).1.tokens
  unfolding login upgrade_hash_if_stale
  login-Keeps name password s p =
      either_if Q (fails e look_up) (err unavailable, s)
        (looked_up k access_ttl refresh_ttl e password (get_user_by_login k.lower name s.users) s)
        (keeps.stay s.tokens p) (by_user (get_user_by_login k.lower name s.users))
    where
      upgraded :
          (u : User) → P (upgrade_hash_if_stale k access_ttl refresh_ttl e u password s).tokens
      upgraded u = by_need (k.needs_rehash u.password_hash) (fails e hash) (e.fate update_hash)
        where
          changed : Store
          changed = record s {
            users = update_user_password_hash u.id (k.hash_password e.salt password) s.users;
          }

          by_need :
              (b f : Bool) (fate : Fate)
              → P (if b then (if f then s else (settled fate (ok u) changed s).1) else s).tokens
          by_need false f fate = p
          by_need true true fate = p
          by_need true false done = p
          by_need true false lost = p
          by_need true false refused = p

      by_user : (o : Option User) → Q (looked_up k access_ttl refresh_ttl e password o s).1.tokens
      by_user none = keeps.stay s.tokens p
      by_user (some u) = by_check (k.verify u.password_hash password)
        where
          by_check :
              (v : Option Bool) → Q (checked k access_ttl refresh_ttl e u password v s).1.tokens
          by_check none = keeps.stay s.tokens p
          by_check (some false) = keeps.stay s.tokens p
          by_check (some true) =
              sign_in-Keeps u (upgrade_hash_if_stale k access_ttl refresh_ttl e u password s)
                (upgraded u)

  register-Keeps :
      (username email password : String) (s : Store)
      → P s.tokens
      → Q (register k access_ttl refresh_ttl e username email password s).1.tokens
  unfolding register create_user_row
  register-Keeps username email password s p =
      either_if Q (fails e hash) (err unavailable, s)
        (after_reply k access_ttl refresh_ttl
          (create_user_row k access_ttl refresh_ttl e username email
            (k.hash_password e.salt password) s)
          (λ user later.
            with_user k access_ttl refresh_ttl user
              (issue_pair k access_ttl refresh_ttl e user.id e.new_family later)))
        (keeps.stay s.tokens p)
        (next
          (create_user_row k access_ttl refresh_ttl e username email
            (k.hash_password e.salt password) s)
          created)
    where
      created :
          P
            (create_user_row k access_ttl refresh_ttl e username email
              (k.hash_password e.salt password)
              s).1.tokens
      created =
          either_if P (has_username k.lower username s.users) (err username_taken, s)
            (if has_email k.lower email s.users
              then (err email_taken, s)
              else settled (e.fate create_user) (ok user) after s)
            p
            (either_if P (has_email k.lower email s.users) (err email_taken, s)
              (settled (e.fate create_user) (ok user) after s) p
              (either_settled P (e.fate create_user) (ok user) after s p p))
        where
          user : User
          user = record {
            id = s.next_user;
            username = username;
            email = email;
            password_hash = k.hash_password e.salt password;
          }

          after : Store
          after = record s { users = s.users ++ user ∷ []; next_user = s.next_user + 1 }

      next :
          (reply : Result Error User × Store)
          → P reply.1.tokens
          → Q
              (after_reply k access_ttl refresh_ttl reply (λ user later.
                with_user k access_ttl refresh_ttl user
                  (issue_pair k access_ttl refresh_ttl e user.id e.new_family later))).1.tokens
      next (ok user, later) h = sign_in-Keeps user later h
      next (err x, later) h = keeps.stay later.tokens h

  logout-Keeps :
      (raw : String) (s : Store) → P s.tokens → Q (logout k access_ttl refresh_ttl e raw s).1.tokens
  unfolding logout revoke_refresh_token_family
  logout-Keeps raw s p =
      either_if Q (fails e load) (err unavailable, s)
        (logged_out k access_ttl refresh_ttl e (s.tokens (k.digest raw)) s) (keeps.stay s.tokens p)
        (by_row (s.tokens (k.digest raw)))
    where
      by_row : (o : Option RefreshToken) → Q (logged_out k access_ttl refresh_ttl e o s).1.tokens
      by_row none = keeps.stay s.tokens p
      by_row (some t) =
          either_settled Q (e.fate revoke) (ok tt)
            (revoke_refresh_token_family e.now e.sees t.family s) s
            (keeps.by_revoke t.family s.tokens p) (keeps.stay s.tokens p)

  -- Every request keeps what its four changes keep.
  pub serve-Keeps :
      (request : Request) (s : Store)
      → P s.tokens
      → Q (serve k access_ttl refresh_ttl e request s).tokens
  unfolding serve clean_up delete_expired_refresh_tokens
  serve-Keeps (registering username email password) s p = register-Keeps username email password s p
  serve-Keeps (logging_in name password) s p = login-Keeps name password s p
  serve-Keeps (refreshing raw) s p = refresh-Keeps raw s p
  serve-Keeps (logging_out raw) s p = logout-Keeps raw s p
  serve-Keeps cleaning_up s p =
      either_settled Q (e.fate clean) (ok tt) (delete_expired_refresh_tokens e.now s) s
        (keeps.by_clean s.tokens p) (keeps.stay s.tokens p)
