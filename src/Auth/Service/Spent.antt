-- ===== src/Auth/Service/Spent.antt =====
-- internal/auth/service.go: a token that has been used.
use Prim.Native.String.{String}
use podium.Base.{
  ℕ, ◌+◌, ◌≡◌, refl, ap, ◌∙◌, inl, inr, Bool, true, false, not, ◌&&◌, ◌||◌, Option, none, some,
  List, [], ◌∷◌, Result, ok, err, if◌then◌else◌, Bool-cases, arith, ◌==◌, ltb,
}
use podium.Games.Common.{Time}
use podium.Auth.Tokens.{
  RefreshToken, Store, is_null, is_claimable, claimable_row, new_token, inserted, set_token,
  revoked_row, kept_row, claim_refresh_token, create_refresh_token,
}
use podium.Auth.Service.{
  Error, unavailable, begin, claim, sign, draw, create, commit, Fate, done, lost, refused, Env,
  Pair, Secrets, fails, settled, pair_of, stored, issue_pair, committed, refresh, Request, serve,
  served,
}
use podium.Auth.Service.Steps.{Table, used, Keeps, serve-Keeps}
use podium.Auth.Service.Rotation.{Failed, refresh-Failed}

-- A row that cannot be claimed at any time, or no row.
abbrev pub is_spent : Option RefreshToken → Bool
is_spent none = true
is_spent (some x) = not (is_null x.revoked_at) || not (is_null x.used_at)

or_true : (b : Bool) → (b || true) ≡ true
or_true true = refl
or_true false = refl

pub claimable_row-is_spent :
    (now : Time) (o : Option RefreshToken) → is_spent o ≡ true → claimable_row now o ≡ none
unfolding is_claimable
claimable_row-is_spent now none e = refl
claimable_row-is_spent now (some x) e = by_null x.used_at x.revoked_at refl refl
  where
    by_null :
        (u r : Option Time) → x.used_at ≡ u → x.revoked_at ≡ r → claimable_row now (some x) ≡ none
    by_null (some at) r is is' = rw is refl
    by_null none (some at) is is' = rw (is, is') refl
    by_null none none is is' = (let gone : false ≡ true = rw (is', is) at e in cc (gone))

module _ (k : Secrets) (h : ℕ) where
  abbrev Spent : Table → Type 0
  Spent t = is_spent (t h) ≡ true

  -- Whatever a request does, a spent token stays spent, unless the request draws it again.
  Spent-Keeps : (e : Env) → (k.digest e.drawn == h) ≡ false → Keeps k e Spent Spent
  Spent-Keeps e apart = record {
    stay = λ t p. p;
    by_revoke = λ f t p. revoked (e.sees h) f (t h) p;
    by_clean = λ t p. cleaned (t h) p;
    by_sign_in = λ t x fresh same p. rw apart p;
    by_claim = λ t j x row can p. after_claim t j x p;
    by_rotation = λ t j x y row can same fresh p. rw apart (after_claim t j x p);
  }
    where
      after_claim :
          (t : Table) (j : ℕ) (x : RefreshToken)
          → is_spent (t h) ≡ true
          → is_spent (set_token j (used e.now x) t h) ≡ true
      after_claim t j x p = elim (Bool-cases (j == h)) [
        | inl hit ↦ rw hit (or_true (not (is_null x.revoked_at)))
        | inr miss ↦ rw miss p
      ]

      revoked :
          (seen : Bool) (f : ℕ) (o : Option RefreshToken)
          → is_spent o ≡ true
          → is_spent (revoked_row seen e.now f o) ≡ true
      revoked seen f none p = refl
      revoked seen f (some x) p =
          elim (Bool-cases (seen && ((x.family == f) && is_null x.revoked_at))) [
            | inl yes_ ↦ rw yes_ refl
            | inr no_ ↦ rw no_ p
          ]

      cleaned : (o : Option RefreshToken) → is_spent o ≡ true → is_spent (kept_row e.now o) ≡ true
      cleaned none p = refl
      cleaned (some x) p = elim (Bool-cases (ltb x.expires_at e.now)) [
        | inl yes_ ↦ rw yes_ refl
        | inr no_ ↦ rw no_ p
      ]

-- Requests that draw other tokens than one.
abbrev pub Avoids : Secrets → ℕ → List (Env × Request) → Type 0
Avoids k h [] = Unit {0}
Avoids k h ((e, request) ∷ rest) = ((k.digest e.drawn == h) ≡ false) × Avoids k h rest

-- What a reply with a pair says of the tables.
abbrev Given : (Table → Type 0) → Result Error Pair × Store → Type 0
Given Q (ok pair, s) = Q s.tokens
Given Q (err x, s) = Unit {0}

Given-if :
    (Q : Table → Type 0) (b : Bool) (x y : Result Error Pair × Store)
    → Given Q x
    → Given Q y
    → Given Q (if b then x else y)
Given-if Q true x y hx hy = hx
Given-if Q false x y hx hy = hy

Given-Failed : (Q : Table → Type 0) (r : Result Error Pair × Store) → Failed r.0 → Given Q r
Given-Failed Q (ok pair, s) f = absurd f
Given-Failed Q (err x, s) f = tt

Given-settled :
    (Q : Table → Type 0) (fate : Fate) (pair : Pair) (after before : Store)
    → Q after.tokens
    → Given Q (settled fate (ok pair) after before)
Given-settled Q done pair after before h = h
Given-settled Q lost pair after before h = tt
Given-settled Q refused pair after before h = tt

Given-committed :
    (k : Secrets) (access_ttl refresh_ttl : Time) (Q : Table → Type 0) (e : Env)
    (r : Result Error Pair × Store) (before : Store)
    → Given Q r
    → Given Q (committed k access_ttl refresh_ttl e r before)
Given-committed k access_ttl refresh_ttl Q e (ok pair, after) before h =
    Given-settled Q (e.fate commit) pair after before h
Given-committed k access_ttl refresh_ttl Q e (err x, after) before h = tt

module _ (k : Secrets) (access_ttl refresh_ttl : Time) where
  pub served-Spent :
      (h : ℕ) (rest : List (Env × Request)) (s : Store)
      → Avoids k h rest
      → is_spent (s.tokens h) ≡ true
      → is_spent ((served k access_ttl refresh_ttl rest s).tokens h) ≡ true
  unfolding served
  served-Spent h [] s avoids p = p
  served-Spent h ((e, request) ∷ rest) s (apart, avoids) p =
      served-Spent h rest (serve k access_ttl refresh_ttl e request s) avoids (
        serve-Keeps k access_ttl refresh_ttl e (Spent k h) (Spent k h) (Spent-Keeps k h e apart)
          request s p)

  issue_pair-Given :
      (e : Env) (h user family : ℕ) (s : Store) (x : RefreshToken)
      → s.tokens h ≡ some x
      → is_spent (some x) ≡ true
      → Given (Spent k h) (issue_pair k access_ttl refresh_ttl e user family s)
  unfolding issue_pair create_refresh_token
  issue_pair-Given e h user family s x row p =
      Given-if (Spent k h) (fails e sign) (err unavailable, s)
        (if fails e draw
          then (err unavailable, s)
          else stored k access_ttl refresh_ttl e user (inserted d y s (s.tokens d)) s)
        tt
        (Given-if (Spent k h) (fails e draw) (err unavailable, s)
          (stored k access_ttl refresh_ttl e user (inserted d y s (s.tokens d)) s) tt
          (by_row (s.tokens d) refl))
    where
      d : ℕ
      d = k.digest e.drawn

      y : RefreshToken
      y = new_token user family (e.clock + refresh_ttl)

      by_row :
          (o : Option RefreshToken)
          → s.tokens d ≡ o
          → Given (Spent k h) (stored k access_ttl refresh_ttl e user (inserted d y s o) s)
      by_row (some t) is = tt
      by_row none is =
          Given-settled (Spent k h) (e.fate create) (pair_of k access_ttl refresh_ttl e user)
            (record s { tokens = set_token d y s.tokens }) s
            (elim (Bool-cases (d == h)) [
              | inr miss ↦ rw (miss, row) p
              | inl hit ↦
                  let one : d ≡ h = ground arith in
                  let gone : s.tokens d ≡ some x = ap s.tokens one ∙ row in cc (is, gone)
            ])

  refresh-Given :
      (e : Env) (raw : String) (s : Store)
      → Given (Spent k (k.digest raw)) (refresh k access_ttl refresh_ttl e raw s)
  unfolding refresh claim_refresh_token
  refresh-Given e raw s = by_row (s.tokens (k.digest raw)) refl
    where
      by_row :
          (o : Option RefreshToken)
          → s.tokens (k.digest raw) ≡ o
          → Given (Spent k (k.digest raw)) (refresh k access_ttl refresh_ttl e raw s)
      by_row none is =
          Given-Failed (Spent k (k.digest raw)) (refresh k access_ttl refresh_ttl e raw s)
            (refresh-Failed k access_ttl refresh_ttl e raw s (rw is refl))
      by_row (some x) is = elim (Bool-cases (is_claimable e.now x)) [
        | inr no_ ↦
            Given-Failed (Spent k (k.digest raw)) (refresh k access_ttl refresh_ttl e raw s)
              (refresh-Failed k access_ttl refresh_ttl e raw s (rw (is, no_) refl))
        | inl yes_ ↦
            let h : ℕ = k.digest raw in
            let after : Store = record s { tokens = set_token h (used e.now x) s.tokens } in
            let own : (h == h) ≡ true = ground arith in
            rw (is, yes_)
              (Given-if (Spent k h) (fails e begin) (err unavailable, s)
                (if fails e claim
                  then (err unavailable, s)
                  else committed k access_ttl refresh_ttl e
                      (issue_pair k access_ttl refresh_ttl e x.user_id x.family after) s)
                tt
                (Given-if (Spent k h) (fails e claim) (err unavailable, s)
                  (committed k access_ttl refresh_ttl e
                    (issue_pair k access_ttl refresh_ttl e x.user_id x.family after) s)
                  tt
                  (Given-committed k access_ttl refresh_ttl (Spent k h) e
                    (issue_pair k access_ttl refresh_ttl e x.user_id x.family after) s
                    (issue_pair-Given e h x.user_id x.family after (used e.now x) (rw own refl)
                      (or_true (not (is_null x.revoked_at)))))))
      ]

  -- A token is good for one refresh: once a refresh has answered with a pair, and whatever requests
  -- follow, in any order and with any failures, as long as none draws a token of the same digest, no
  -- later refresh with that token answers with a pair.
  pub refresh_once :
      (e last : Env) (raw : String) (s : Store) (pair : Pair) (rest : List (Env × Request))
      → (refresh k access_ttl refresh_ttl e raw s).0 ≡ ok pair
      → Avoids k (k.digest raw) rest
      → Failed
          (refresh k access_ttl refresh_ttl last raw
            (served k access_ttl refresh_ttl rest (refresh k access_ttl refresh_ttl e raw s).1)).0
  refresh_once e last raw s pair rest answered avoids =
      refresh-Failed k access_ttl refresh_ttl last raw
        (served k access_ttl refresh_ttl rest (refresh k access_ttl refresh_ttl e raw s).1)
        (claimable_row-is_spent last.now
          ((served k access_ttl refresh_ttl rest
              (refresh k access_ttl refresh_ttl e raw s).1).tokens
            h)
          (served-Spent h rest (refresh k access_ttl refresh_ttl e raw s).1 avoids
            (taken (refresh k access_ttl refresh_ttl e raw s) answered (refresh-Given e raw s))))
    where
      h : ℕ
      h = k.digest raw

      taken :
          (r : Result Error Pair × Store)
          → r.0 ≡ ok pair
          → Given (Spent k h) r
          → is_spent (r.1.tokens h) ≡ true
      taken (ok a, after) is given = given
      taken (err x, after) is given = cc (is)
