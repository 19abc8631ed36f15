-- ===== src/Tests/Auth.antt =====
-- Concrete tokens for internal/auth.
use Prim.Native.String.{String}
use text.Mathlib.Text.{◌==◌ as str_eq}
use podium.Base.{
  ℕ, ◌+◌, ◌≡◌, refl, true, false, none, some, List, [], ◌∷◌, ok, err, arith, ◌==◌, if◌then◌else◌,
}
use podium.Auth.Tokens.{RefreshToken, Store, is_claimable, claimable_row, new_token}
use podium.Auth.Service.{
  token_reused, done, Env, Secrets, Request, refreshing, cleaning_up, pair_of, refresh, logout,
  served,
}
use podium.Auth.Service.Rotation.{Failed, rotated, refresh_rotates}
use podium.Auth.Service.Spent.{refresh_once}
use podium.Auth.Service.Families.{refresh_reused, logout_ends}

abbrev digest : String → ℕ
digest raw = if str_eq raw "first" then 1 else (if str_eq raw "second" then 2 else 3)

abbrev secrets : Secrets
secrets = record {
  hash_password = λ salt password. password;
  verify = λ encoded password. some (str_eq encoded password);
  needs_rehash = λ encoded. false;
  sign_access = λ user at. "signed";
  digest = digest;
  lower = λ s. s;
}

abbrev env : String → ℕ → Env
env drawn family = record {
  now = 100;
  clock = 101;
  drawn = drawn;
  new_family = family;
  salt = 0;
  fate = λ c. done;
  sees = λ h. true;
}

abbrev first_token : RefreshToken
first_token = new_token 7 40 500

abbrev one_token : Store
one_token = record {
  tokens = λ h. if digest "first" == h then some first_token else none;
  users = [];
  next_user = 8;
}

claimable : is_claimable 100 first_token ≡ true
unfolding is_claimable
claimable = refl

answered :
    (refresh secrets 10 1000 (env "second" 41) "first" one_token).0
    ≡ ok (pair_of secrets 10 1000 (env "second" 41) 7)
unfolding refresh
answered = refl

refresh_rotates_example :
    (refresh secrets 10 1000 (env "second" 41) "first" one_token ≡ (
      ok (pair_of secrets 10 1000 (env "second" 41) 7),
      rotated secrets 10 1000 (env "second" 41) "first" first_token one_token,
    ))
    × (claimable_row 300 (
          (rotated secrets 10 1000 (env "second" 41) "first" first_token one_token).tokens
            (digest "second"))
        ≡ some (new_token 7 40 (101 + 1000)))
    × (claimable_row 300 (
          (rotated secrets 10 1000 (env "second" 41) "first" first_token one_token).tokens
            (digest "first"))
        ≡ none)
refresh_rotates_example =
    refresh_rotates secrets 10 1000 (env "second" 41) "first" one_token first_token 300 (λ c. refl)
      refl claimable refl refl (omega arith)

abbrev after_one : Store
after_one = (refresh secrets 10 1000 (env "second" 41) "first" one_token).1

abbrev traffic : List (Env × Request)
traffic = (env "third" 42, refreshing "second") ∷ (env "third" 43, cleaning_up) ∷ []

refresh_once_example :
    Failed
      (refresh secrets 10 1000
        (env "third" 44)
        "first"
        (served secrets 10 1000 traffic after_one)).0
refresh_once_example =
    refresh_once secrets 10 1000 (env "second" 41) (env "third" 44) "first" one_token
      (pair_of secrets 10 1000 (env "second" 41) 7) traffic answered (refl, (refl, tt))

used_row : after_one.tokens (digest "first") ≡ some (record first_token { used_at = some 100 })
unfolding refresh
used_row = refl

second_row : after_one.tokens (digest "second") ≡ some (new_token 7 40 (101 + 1000))
unfolding refresh
second_row = refl

refresh_reused_example :
    ((refresh secrets 10 1000 (env "third" 45) "first" after_one).0 ≡ err token_reused)
    × Failed
        (refresh secrets 10 1000 (env "third" 46) "second" (
          served secrets 10 1000 traffic
            (refresh secrets 10 1000 (env "third" 45) "first" after_one).1)).0
refresh_reused_example =
    refresh_reused secrets 10 1000 (env "third" 45) (env "third" 46) "first" "second" after_one
      (record first_token { used_at = some 100 }) (new_token 7 40 (101 + 1000)) traffic (λ c. refl)
      used_row refl second_row refl refl (refl, (refl, tt))

logout_ends_example :
    ((logout secrets 10 1000 (env "third" 45) "first" one_token).0 ≡ ok tt)
    × Failed
        (refresh secrets 10 1000 (env "second" 46) "first" (
          served secrets 10 1000 traffic
            (logout secrets 10 1000 (env "third" 45) "first" one_token).1)).0
logout_ends_example =
    logout_ends secrets 10 1000 (env "third" 45) (env "second" 46) "first" "first" one_token
      first_token first_token traffic (λ c. refl) refl refl refl refl (refl, (refl, tt))
