-- ===== src/Prelude/Assoc.antt =====
-- A Go map as an association list: at most one entry for a key is ever seen.
use mathlib.Core.Path.{◌≡◌, refl}
use mathlib.Core.List.{List, [], ◌∷◌}
use mathlib.Core.Logic.{◌⊎◌}
use mathlib.Core.Option.{Option, none, some}
use native.Mathlib.Omega.{arith}
use gomm.Prelude.Tests.{if◌then◌else◌}
use gomm.Prelude.Equality.{Eq, ◌==◌}

module _ {ℓ κ} {K : Type ℓ} {V : Type κ} ⦃e : Eq K⦄ where
  unfoldable pub insert : K → V → List (K × V) → List (K × V)
  insert key value [] = (key, value) ∷ []
  insert key value ((first, old) ∷ more) =
      if first == key then (key, value) ∷ more else (first, old) ∷ insert key value more

  unfoldable pub lookup : K → List (K × V) → Option V
  lookup key [] = none
  lookup key ((first, value) ∷ more) = if first == key then some value else lookup key more

  pub lookup-insert :
      (key other : K) (value : V) (entries : List (K × V))
      → lookup other (insert key value entries)
        ≡ (if key == other then some value else lookup other entries)
  unfolding insert lookup
  lookup-insert key other value [] = refl
  lookup-insert key other value ((first, old) ∷ more) = ground (
    arith,
    lookup-insert key other value more,
    e.same_iff first other,
    e.same_iff first key,
    e.same_iff key other,
  )

  pub lookup-insert_self : (k : K) (v : V) (m : List (K × V)) → lookup k (insert k v m) ≡ some v
  lookup-insert_self k v m = ground (arith, lookup-insert k k v m, e.same_iff k k)

  -- What a lookup finds after an insertion is the new value, at its key, or an old one.
  pub lookup-insert_found :
      (k j : K) (v w : V) (m : List (K × V))
      → lookup j (insert k v m) ≡ some w
      → ((k ≡ j) × (w ≡ v)) ⊎ (lookup j m ≡ some w)
  lookup-insert_found k j v w m h = ground (arith, lookup-insert k j v m, e.same_iff k j)

  pub lookup-insert_ne :
      (k j : K) (v : V) (m : List (K × V)) → (k ≡ j) ⊎ (lookup j (insert k v m) ≡ lookup j m)
  lookup-insert_ne k j v m = ground (arith, lookup-insert k j v m, e.same_iff k j)
