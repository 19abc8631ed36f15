-- ===== src/Auth/Service/Rotation.antt =====
-- internal/auth/service.go: the rotation of one token.
use Prim.Native.String.{String}
use podium.Base.{
  ℕ, ◌+◌, ◌≡◌, ◌<◌, refl, Bool, true, false, Option, none, some, Result, ok, err, if◌then◌else◌,
  arith, ◌==◌, ltb,
}
use podium.Games.Common.{Time}
use podium.Auth.Tokens.{
  RefreshToken, Store, is_null, is_claimable, claimable_row, claimed, new_token, set_token,
  claim_refresh_token, create_refresh_token, revoke_refresh_token_family,
}
use podium.Auth.Service.{
  Error, invalid_token, token_expired, token_reused, unavailable, Call, begin, claim, sign, draw,
  create, load, revoke, commit, Fate, done, lost, refused, Env, Pair, Secrets, fails, settled,
  pair_of, issue_pair, rejected, reject_claim, claimed_with, refresh,
}
use podium.Auth.Service.Steps.{used}

abbrev pub Failed : {A : Type 0} → Result Error A → Type 0
Failed (ok a) = ⊥
Failed (err x) = Unit {0}

Failed-if :
    {A : Type 0} (b : Bool) (x y : Result Error A × Store)
    → Failed x.0
    → Failed y.0
    → Failed (if b then x else y).0
Failed-if true x y hx hy = hx
Failed-if false x y hx hy = hy

Failed-settled :
    (A : Type 0) (fate : Fate) (x : Error) (after before : Store)
    → Failed (settled {A = A} fate (err x) after before).0
Failed-settled A done x after before = tt
Failed-settled A lost x after before = tt
Failed-settled A refused x after before = tt

module _ (k : Secrets) (access_ttl refresh_ttl : Time) where
  -- A token that cannot be claimed is refused, for whatever reason.
  pub refresh-Failed :
      (e : Env) (raw : String) (s : Store)
      → claimable_row e.now (s.tokens (k.digest raw)) ≡ none
      → Failed (refresh k access_ttl refresh_ttl e raw s).0
  unfolding refresh claim_refresh_token reject_claim
  refresh-Failed e raw s no_row =
      Failed-if (fails e begin) (err unavailable, s) (claiming (claimable_row e.now (s.tokens h)))
        tt
        (Failed-if (fails e claim) (err unavailable, s)
          (claiming_ (claimable_row e.now (s.tokens h))) tt
          (rw no_row (
            Failed-if (fails e load) (err unavailable, s)
              (rejected k access_ttl refresh_ttl e (s.tokens h) s) tt (by_row (s.tokens h)))))
    where
      h : ℕ
      h = k.digest raw

      claiming_ : Option RefreshToken → Result Error Pair × Store
      claiming_ o = claimed_with k access_ttl refresh_ttl e h (claimed e.now h s o) s

      claiming : Option RefreshToken → Result Error Pair × Store
      claiming o = if fails e claim then (err unavailable, s) else claiming_ o

      by_row : (o : Option RefreshToken) → Failed (rejected k access_ttl refresh_ttl e o s).0
      by_row none = tt
      by_row (some t) = by_use (is_null t.used_at) (is_null t.revoked_at) (fails e revoke)
        where
          by_use :
              (b c f : Bool)
              → Failed
                  (if b
                    then (if c then (err token_expired, s) else (err invalid_token, s))
                    else (if f
                        then (err unavailable, s)
                        else settled {A = Pair}
                            (e.fate commit)
                            (err token_reused)
                            (revoke_refresh_token_family e.now e.sees t.family s)
                            s)).0
          by_use true true f = tt
          by_use true false f = tt
          by_use false c true = tt
          by_use false c false =
              Failed-settled Pair (e.fate commit) token_reused
                (revoke_refresh_token_family e.now e.sees t.family s) s

  -- A token that can be claimed, when every call is done and the token that is drawn is a new one.
  abbrev AllDone : Env → Type 0
  AllDone e = (c : Call) → e.fate c ≡ done

  abbrev pub rotated : Env → String → RefreshToken → Store → Store
  rotated e raw x s = record s {
    tokens =
        set_token (k.digest e.drawn) (new_token x.user_id x.family (e.clock + refresh_ttl))
          (set_token (k.digest raw) (used e.now x) s.tokens);
  }

  refresh-rotated :
      (e : Env) (raw : String) (s : Store) (x : RefreshToken)
      → AllDone e
      → s.tokens (k.digest raw) ≡ some x
      → is_claimable e.now x ≡ true
      → s.tokens (k.digest e.drawn) ≡ none
      → (k.digest raw == k.digest e.drawn) ≡ false
      → refresh k access_ttl refresh_ttl e raw s
        ≡ (ok (pair_of k access_ttl refresh_ttl e x.user_id), rotated e raw x s)
  unfolding refresh claim_refresh_token issue_pair create_refresh_token
  refresh-rotated e raw s x all row can fresh apart =
      rw (all begin, all claim, row, can, all sign, all draw, apart, fresh, all create, all commit)
        refl

  -- With every call done, for a token that can be claimed and a drawn token that no row has: a
  -- refresh answers with a pair for the token's user; the tables hold a new token of the same user
  -- and family, which can be claimed until it expires, and the old one can be claimed no more.
  pub refresh_rotates :
      (e : Env) (raw : String) (s : Store) (x : RefreshToken) (later : Time)
      → AllDone e
      → s.tokens (k.digest raw) ≡ some x
      → is_claimable e.now x ≡ true
      → s.tokens (k.digest e.drawn) ≡ none
      → (k.digest raw == k.digest e.drawn) ≡ false
      → later < e.clock + refresh_ttl
      → (refresh k access_ttl refresh_ttl e raw s
          ≡ (ok (pair_of k access_ttl refresh_ttl e x.user_id), rotated e raw x s))
        × (claimable_row later ((rotated e raw x s).tokens (k.digest e.drawn))
            ≡ some (new_token x.user_id x.family (e.clock + refresh_ttl)))
        × (claimable_row later ((rotated e raw x s).tokens (k.digest raw)) ≡ none)
  unfolding is_claimable
  refresh_rotates e raw s x later all row can fresh apart before =
      let self : (k.digest e.drawn == k.digest e.drawn) ≡ true = ground arith in
      let own : (k.digest raw == k.digest raw) ≡ true = ground arith in
      let away : (k.digest e.drawn == k.digest raw) ≡ false = ground arith in
      let in_time : ltb later (e.clock + refresh_ttl) ≡ true = ground arith in
      (
        refresh-rotated e raw s x all row can fresh apart,
        rw (self, in_time) refl,
        rw (away, own) refl,
      )
