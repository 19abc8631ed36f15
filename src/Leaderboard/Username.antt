-- ===== src/Leaderboard/Username.antt =====
-- internal/leaderboard/names.go: the names of users, from a cache in Redis and else from the
-- directory. The cache is what MGET finds.
use Prim.Native.String.{String}
use text.Mathlib.Text.{◌==◌ as str_eq}
use podium.Base.{
  ℕ, ◌≡◌, refl, sym, ◌∙◌, inl, inr, Bool-cases, Bool, true, false, Option, none, some, List, [],
  ◌∷◌, Result, ok, err, or_fail, ◌>>=◌, ◌==◌, if◌then◌else◌, arith, subst,
}
use podium.Leaderboard.Pages.{Error, unavailable}

-- The map `seen`.
unfoldable pub has_id : ℕ → List ℕ → Bool
has_id i [] = false
has_id i (j ∷ js) = let rest = has_id i js in if j == i then true else rest

-- The ids without those that `seen` has, each once.
unfoldable pub unique_from : List ℕ → List ℕ → List ℕ
unfolding has_id
unique_from seen [] = []
unique_from seen (i ∷ is) =
    let old = unique_from seen is in
    let new = i ∷ unique_from (i ∷ seen) is in if has_id i seen then old else new

-- A cached name that is not empty.
abbrev pub cached_name : Option String → Option String
cached_name none = none
cached_name (some name) = if str_eq name "" then none else some name

abbrev pub unless_found : ℕ → Option String → List ℕ → List ℕ
unless_found i none more = i ∷ more
unless_found i (some name) more = more

unfoldable pub missing : (ℕ → Option String) → List ℕ → List ℕ
missing cache [] = []
missing cache (i ∷ is) = unless_found i (cached_name (cache i)) (missing cache is)

unfoldable pub lookup : ℕ → List (ℕ × String) → Option String
lookup i [] = none
lookup i ((j, name) ∷ rest) = let later = lookup i rest in if j == i then some name else later

-- A name that was fetched replaces a cached one, and an id without a name reads as the empty text.
abbrev pub first_name : Option String → Option String → String
first_name (some name) cached = name
first_name none (some name) = name
first_name none none = ""

-- The map of names: it has the ids that were asked for and those that were fetched.
abbrev pub name_in : (ℕ → Option String) → List ℕ → List (ℕ × String) → ℕ → String
name_in cache ids fetched i =
    first_name (lookup i fetched) (if has_id i ids then cached_name (cache i) else none)

abbrev pub fetched_names :
    (List ℕ → Option (List (ℕ × String)))
    → (ℕ → Option String)
    → List ℕ
    → List ℕ
    → Result Error (ℕ → String)
fetched_names directory cache ids [] = ok (name_in cache ids [])
fetched_names directory cache ids (i ∷ is) =
    or_fail (directory (i ∷ is)) unavailable >>= λ rows. ok (name_in cache ids rows)

abbrev pub read_names :
    Option (ℕ → Option String)
    → (List ℕ → Option (List (ℕ × String)))
    → List ℕ
    → Result Error (ℕ → String)
read_names none directory ids = err unavailable
read_names (some cache) directory ids = fetched_names directory cache ids (missing cache ids)

-- nameResolver.resolve. A failure to write to the cache changes no answer.
unfoldable pub resolve :
    Option (ℕ → Option String)
    → (List ℕ → Option (List (ℕ × String)))
    → List ℕ
    → Result Error (ℕ → String)
unfolding unique_from missing lookup
resolve cache directory [] = ok (λ i. "")
resolve cache directory (i ∷ is) = read_names cache directory (unique_from [] (i ∷ is))

has_id-unique_from :
    (i : ℕ) (seen ids : List ℕ)
    → has_id i ids ≡ true
    → has_id i seen ≡ false
    → has_id i (unique_from seen ids) ≡ true
unfolding has_id unique_from
has_id-unique_from i seen [] there fresh = cc (there)
has_id-unique_from i seen (j ∷ js) there fresh = elim (Bool-cases (j == i)) [
  | inl same ↦
      let one : j ≡ i = ground arith in
      let new : has_id j seen ≡ false = subst (λ n. has_id n seen ≡ false) (sym one) fresh in
      rw (new, same) refl
  | inr other ↦
      let later : has_id i js ≡ true = rw other at there in
      elim (Bool-cases (has_id j seen)) [
        | inl old ↦ rw old (has_id-unique_from i seen js later fresh)
        | inr new ↦
            let still : has_id i (j ∷ seen) ≡ false = rw other fresh in
            rw (new, other) (has_id-unique_from i (j ∷ seen) js later still)
      ]
]

has_id-missing :
    (cache : ℕ → Option String) (i : ℕ) (ids : List ℕ)
    → has_id i ids ≡ true
    → cached_name (cache i) ≡ none
    → has_id i (missing cache ids) ≡ true
unfolding has_id missing
has_id-missing cache i [] there gone = cc (there)
has_id-missing cache i (j ∷ js) there gone = elim (Bool-cases (j == i)) [
  | inl same ↦
      let one : j ≡ i = ground arith in
      let absent : cached_name (cache j) ≡ none =
        subst (λ n. cached_name (cache n) ≡ none) (sym one) gone in
      rw (absent, same) refl
  | inr other ↦
      let later : has_id i js ≡ true = rw other at there in
      by_found (cached_name (cache j)) other (has_id-missing cache i js later gone)
]
  where
    by_found :
        (o : Option String)
        → (j == i) ≡ false
        → has_id i (missing cache js) ≡ true
        → has_id i (unless_found j o (missing cache js)) ≡ true
    by_found none other later = rw other later
    by_found (some name) other later = later

-- The cache and the directory, of users whose names `user_name` tells: the cache has no other name,
-- and the directory answers with the name of each id that is asked for, and with no other.
abbrev pub IsCached : (ℕ → Option String) → (ℕ → Option String) → Type 0
IsCached user_name cache =
    (i : ℕ) (name : String) → cached_name (cache i) ≡ some name → user_name i ≡ some name

abbrev pub IsDirectory : (ℕ → Option String) → (List ℕ → List (ℕ × String)) → Type 0
IsDirectory user_name rows =
    ((i : ℕ) (ids : List ℕ) → has_id i ids ≡ true → lookup i (rows ids) ≡ user_name i)
    × ((i : ℕ) (ids : List ℕ) (name : String)
        → lookup i (rows ids) ≡ some name
        → user_name i ≡ some name)

name_in-user_name :
    (user_name cache : ℕ → Option String) (ids : List ℕ) (fetched : List (ℕ × String)) (i : ℕ)
    → IsCached user_name cache
    → has_id i ids ≡ true
    → (cached_name (cache i) ≡ none → lookup i fetched ≡ user_name i)
    → ((name : String) → lookup i fetched ≡ some name → user_name i ≡ some name)
    → name_in cache ids fetched i ≡ first_name (user_name i) none
name_in-user_name user_name cache ids fetched i cached there asked honest =
    by_rows (lookup i fetched) (cached_name (cache i)) refl refl
  where
    by_rows :
        (l o : Option String)
        → lookup i fetched ≡ l
        → cached_name (cache i) ≡ o
        → name_in cache ids fetched i ≡ first_name (user_name i) none
    by_rows (some name) o is held = rw (is, honest name is) refl
    by_rows none none is held =
        let unknown : user_name i ≡ none = sym (asked held) ∙ is in
        rw (is, there, held, unknown) refl
    by_rows none (some name) is held = rw (is, there, held, cached i name held) refl

-- With a cache that has no wrong name and a directory that answers, with the names of the ids that it
-- is asked for and with no wrong one: names are resolved for a list of ids, and each id of the list
-- has the name of its user, or the empty text if there is none.
pub resolve-user_name :
    (user_name cache : ℕ → Option String) (rows : List ℕ → List (ℕ × String)) (i j : ℕ)
    (ids : List ℕ)
    → IsCached user_name cache
    → IsDirectory user_name rows
    → has_id i (j ∷ ids) ≡ true
    → (names : ℕ → String) × (resolve (some cache) (λ js. some (rows js)) (j ∷ ids) ≡ ok names)
      × (names i ≡ first_name (user_name i) none)
unfolding resolve has_id lookup
resolve-user_name user_name cache rows i j ids cached (asked, honest) there =
    let uniq : List ℕ = unique_from [] (j ∷ ids) in
    let in_uniq : has_id i uniq ≡ true = has_id-unique_from i [] (j ∷ ids) there nowhere in
    by_missing uniq in_uniq (missing cache uniq) refl
  where
    no_id : has_id i [] ≡ true → ⊥
    no_id e = cc (e)

    nowhere : has_id i [] ≡ false
    nowhere = refl

    by_missing :
        (uniq : List ℕ)
        → has_id i uniq ≡ true
        → (m : List ℕ) → missing cache uniq ≡ m
        → (names : ℕ → String) × (fetched_names
              (λ js. some (rows js))
              cache
              uniq
              (missing cache uniq)
            ≡ ok names)
          × (names i ≡ first_name (user_name i) none)
    by_missing uniq inside [] is = (
      name_in cache uniq [],
      rw is refl,
      name_in-user_name user_name cache uniq [] i cached inside
          (λ gone.
            absurd
              (no_id (subst (λ m. has_id i m ≡ true) is (has_id-missing cache i uniq inside gone))))
          (λ name e. cc (e)),
    )
    by_missing uniq inside (k ∷ ks) is = (
      name_in cache uniq (rows (k ∷ ks)),
      rw is refl,
      name_in-user_name user_name cache uniq (rows (k ∷ ks)) i cached inside
          (λ gone.
            asked i (k ∷ ks)
              (subst (λ m. has_id i m ≡ true) is (has_id-missing cache i uniq inside gone)))
          (honest i (k ∷ ks)),
    )
