-- ===== src/Auth/Service/Families.antt =====
-- internal/auth/service.go: the families of tokens, each of which comes from one login.
use Prim.Native.String.{String}
use podium.Base.{ℕ, ◌≡◌, refl, true, false, Option, none, some, List, ok, err, ◌==◌}
use podium.Games.Common.{Time}
use podium.Auth.Tokens.{
  RefreshToken, Store, is_null, is_claimable, revoked_row, claim_refresh_token,
  revoke_refresh_token_family,
}
use podium.Auth.Service.{
  token_reused, Call, begin, claim, load, revoke, commit, done, Env, Secrets, refresh, reject_claim,
  logout, Request, served,
}
use podium.Auth.Service.Spent.{is_spent, claimable_row-is_spent, served-Spent, Avoids}
use podium.Auth.Service.Rotation.{Failed, refresh-Failed}

-- A revocation that sees a token of the family leaves it good for nothing.
revoked_row-spends :
    (now f : ℕ) (x : RefreshToken)
    → (x.family == f) ≡ true
    → is_spent (revoked_row true now f (some x)) ≡ true
revoked_row-spends now f x own = by_null x.revoked_at refl
  where
    by_null :
        (o : Option Time) → x.revoked_at ≡ o → is_spent (revoked_row true now f (some x)) ≡ true
    by_null none is = rw (own, is) refl
    by_null (some at) is = rw (own, is) refl

module _ (k : Secrets) (access_ttl refresh_ttl : Time) where
  abbrev revoked : Env → ℕ → Store → Store
  revoked e f s = record s { tokens = λ h. revoked_row (e.sees h) e.now f (s.tokens h) }

  -- After a revocation, and whatever requests follow, a token that it saw is refused.
  revoked-Failed :
      (e last : Env) (other : String) (s : Store) (f : ℕ) (y : RefreshToken)
      (rest : List (Env × Request))
      → s.tokens (k.digest other) ≡ some y
      → (y.family == f) ≡ true
      → e.sees (k.digest other) ≡ true
      → Avoids k (k.digest other) rest
      → Failed
          (refresh k access_ttl refresh_ttl last other
            (served k access_ttl refresh_ttl rest (revoked e f s))).0
  revoked-Failed e last other s f y rest row own seen avoids =
      refresh-Failed k access_ttl refresh_ttl last other
        (served k access_ttl refresh_ttl rest (revoked e f s))
        (claimable_row-is_spent last.now
          ((served k access_ttl refresh_ttl rest (revoked e f s)).tokens (k.digest other))
          (served-Spent k access_ttl refresh_ttl (k.digest other) rest (revoked e f s) avoids
            (rw (row, seen) (revoked_row-spends e.now f y own))))

  refresh-reused :
      (e : Env) (raw : String) (s : Store) (x : RefreshToken)
      → ((c : Call) → e.fate c ≡ done)
      → s.tokens (k.digest raw) ≡ some x
      → is_null x.used_at ≡ false
      → refresh k access_ttl refresh_ttl e raw s ≡ (err token_reused, revoked e x.family s)
  unfolding refresh claim_refresh_token reject_claim revoke_refresh_token_family is_claimable
  refresh-reused e raw s x all row gone =
      rw (all begin, all claim, row, gone, all load, row, gone, all revoke, all commit) refl

  -- A token that is presented again, when every call is done: the request fails with token_reused,
  -- and a token of its family that the table has then, and that the revocation sees, is good for no
  -- refresh any more, whatever requests follow, in any order and with any failures, as long as none
  -- draws a token of the same digest.
  pub refresh_reused :
      (e last : Env) (raw other : String) (s : Store) (x y : RefreshToken)
      (rest : List (Env × Request))
      → ((c : Call) → e.fate c ≡ done)
      → s.tokens (k.digest raw) ≡ some x
      → is_null x.used_at ≡ false
      → s.tokens (k.digest other) ≡ some y
      → (y.family == x.family) ≡ true
      → e.sees (k.digest other) ≡ true
      → Avoids k (k.digest other) rest
      → ((refresh k access_ttl refresh_ttl e raw s).0 ≡ err token_reused)
        × Failed
            (refresh k access_ttl refresh_ttl last other
              (served k access_ttl refresh_ttl rest (refresh k access_ttl refresh_ttl e raw s).1)).0
  refresh_reused e last raw other s x y rest all row gone there own seen avoids =
      rw (refresh-reused e raw s x all row gone)
        (refl, revoked-Failed e last other s x.family y rest there own seen avoids)

  logout-revoked :
      (e : Env) (raw : String) (s : Store) (x : RefreshToken)
      → ((c : Call) → e.fate c ≡ done)
      → s.tokens (k.digest raw) ≡ some x
      → logout k access_ttl refresh_ttl e raw s ≡ (ok tt, revoked e x.family s)
  unfolding logout revoke_refresh_token_family
  logout-revoked e raw s x all row = rw (all load, row, all revoke) refl

  -- Logout with a known token, when every call is done, is answered, and a token of its family that
  -- the table has then, and that the revocation sees, is good for no refresh any more, whatever
  -- requests follow, as long as none draws a token of the same digest.
  pub logout_ends :
      (e last : Env) (raw other : String) (s : Store) (x y : RefreshToken)
      (rest : List (Env × Request))
      → ((c : Call) → e.fate c ≡ done)
      → s.tokens (k.digest raw) ≡ some x
      → s.tokens (k.digest other) ≡ some y
      → (y.family == x.family) ≡ true
      → e.sees (k.digest other) ≡ true
      → Avoids k (k.digest other) rest
      → ((logout k access_ttl refresh_ttl e raw s).0 ≡ ok tt)
        × Failed
            (refresh k access_ttl refresh_ttl last other
              (served k access_ttl refresh_ttl rest (logout k access_ttl refresh_ttl e raw s).1)).0
  logout_ends e last raw other s x y rest all row there own seen avoids =
      rw (logout-revoked e raw s x all row)
        (refl, revoked-Failed e last other s x.family y rest there own seen avoids)
