-- ===== src/Games/Registry/Lookup.antt =====
-- The registry finds exactly the definitions that it was built from, in their order.
use text.Mathlib.Text.{◌==◌ as str_eq}
use text.Mathlib.TextPositions.{eq_refl}
use mathlib.Core.List.{append-nil, append_assoc}
use podium.Base.{◌≡◌, refl, sym, ◌∙◌, false, List, [], ◌∷◌, ◌++◌, map, ok, err, or_fail-ok}
use podium.Games.Common.{no_such_game}
use podium.Games.Registry.{
  Slug, Definition, Registry, register, new_registry, find, get, all_of, all,
}

module _ {F : Type 0} where
  -- No definition of the list has the slug.
  abbrev pub Fresh : Slug → List (Definition F) → Type 0
  Fresh slug [] = Unit {0}
  Fresh slug (d ∷ ds) = (str_eq d.slug slug ≡ false) × Fresh slug ds

  -- No two definitions share a slug.
  abbrev pub Distinct : List (Definition F) → Type 0
  Distinct [] = Unit {0}
  Distinct (d ∷ ds) = Fresh d.slug ds × Distinct ds

  find-register :
      (slug : Slug) (r : Registry F) (ds : List (Definition F))
      → Fresh slug ds
      → find slug (register r ds).entries ≡ find slug r.entries
  unfolding register find
  find-register slug r [] h = refl
  find-register slug r (d ∷ ds) h =
      find-register slug
        (record { order = r.order ++ d.slug ∷ []; entries = (d.slug, d) ∷ r.entries }) ds h.1
      ∙ rw h.0

  order-register :
      (r : Registry F) (ds : List (Definition F))
      → (register r ds).order ≡ r.order ++ map (λ d. d.slug) ds
  unfolding register
  order-register r [] = sym (append-nil r.order)
  order-register r (d ∷ ds) =
      order-register (record { order = r.order ++ d.slug ∷ []; entries = (d.slug, d) ∷ r.entries })
        ds
      ∙ append_assoc r.order (d.slug ∷ []) (map (λ e. e.slug) ds)

  -- Every definition of a list is found under its slug.
  abbrev pub AllFound : Registry F → List (Definition F) → Type 0
  AllFound r [] = Unit {0}
  AllFound r (d ∷ ds) = (get r d.slug ≡ ok d) × AllFound r ds

  register-AllFound :
      (r : Registry F) (ds : List (Definition F)) → Distinct ds → AllFound (register r ds) ds
  unfolding register get find
  register-AllFound r [] h = tt
  register-AllFound r (d ∷ ds) h =
      let r' : Registry F = record {
        order = r.order ++ d.slug ∷ [];
        entries = (d.slug, d) ∷ r.entries;
      } in
      (rw (find-register d.slug r' ds h.0, eq_refl d.slug), register-AllFound r' ds h.1)

  all_of-AllFound :
      (r : Registry F) (ds : List (Definition F))
      → AllFound r ds
      → all_of r (map (λ d. d.slug) ds) ≡ ds
  unfolding all_of get
  all_of-AllFound r [] h = refl
  all_of-AllFound r (d ∷ ds) h =
      let found = or_fail-ok (find d.slug r.entries) no_such_game h.0 in
      rw (found, all_of-AllFound r ds h.1)

  -- Built from definitions with different slugs, the registry finds each of them under its slug,
  -- lists them all in order, and refuses every slug that none of them has.
  pub new_registry_lem :
      (ds : List (Definition F))
      → Distinct ds
      → AllFound (new_registry ds) ds
        × (all (new_registry ds) ≡ ds)
        × ((slug : Slug) → Fresh slug ds → get (new_registry ds) slug ≡ err no_such_game)
  unfolding new_registry all get
  new_registry_lem ds h =
      let empty : Registry F = record { order = []; entries = [] } in
      let found = register-AllFound empty ds h in
      (
        found,
        rw (order-register empty ds) (all_of-AllFound (register empty ds) ds found),
        λ slug fresh. rw (find-register slug empty ds fresh) (unfold find in refl),
      )
