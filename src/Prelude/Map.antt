-- ===== src/Prelude/Map.antt =====
-- A map as an association list. `insert` replaces the first binding of the key.
use mathlib.Core.Path.{◌≡◌, refl}
use mathlib.Core.Logic.{◌≢◌, ◌⊎◌}
use mathlib.Core.Option.{Option, none, some}
use mathlib.Core.List.{List, [], ◌∷◌}
use native.Mathlib.Omega.{arith}
use velocidb.Prelude.Tests.{if◌then◌else◌}
use velocidb.Prelude.Classes.{Key, ◌==◌}

module _ {ℓ κ} {K : Type ℓ} {V : Type κ} ⦃keys : Key K⦄ where
  unfoldable pub lookup : K → List (K × V) → Option V
  lookup key [] = none
  lookup key ((other, value) ∷ entries) = if other == key then some value else lookup key entries

  unfoldable pub insert : K → V → List (K × V) → List (K × V)
  insert key value [] = (key, value) ∷ []
  insert key value ((other, old) ∷ entries) =
      if other == key then (key, value) ∷ entries else (other, old) ∷ insert key value entries

  unfoldable pub remove : K → List (K × V) → List (K × V)
  remove key [] = []
  remove key ((other, old) ∷ entries) =
      let rest = remove key entries in if other == key then rest else (other, old) ∷ rest

  pub lookup-insert :
      (key other : K) (value : V) (entries : List (K × V))
      → lookup other (insert key value entries)
        ≡ (if key == other then some value else lookup other entries)
  unfolding lookup insert
  lookup-insert key other value [] = refl
  lookup-insert key other value ((third, old) ∷ entries) = ground (
    arith,
    keys.same_key_iff key other,
    keys.same_key_iff third key,
    keys.same_key_iff third other,
    lookup-insert key other value entries,
  )

  pub lookup-remove :
      (key other : K) (entries : List (K × V))
      → lookup other (remove key entries) ≡ (if key == other then none else lookup other entries)
  unfolding lookup remove
  lookup-remove key other [] = ground arith
  lookup-remove key other ((third, old) ∷ entries) = ground (
    arith,
    keys.same_key_iff key other,
    keys.same_key_iff third key,
    keys.same_key_iff third other,
    lookup-remove key other entries,
  )

  -- What a lookup that succeeds after an insert has found: the value inserted, or an older one.
  pub lookup-inserted :
      (key other : K) (value found : V) (entries : List (K × V))
      → lookup other (insert key value entries) ≡ some found
      → ((key ≡ other) × (value ≡ found)) ⊎ ((key ≢ other) × (lookup other entries ≡ some found))
  lookup-inserted key other value found entries h =
      ground (arith, keys.same_key_iff key other, lookup-insert key other value entries, h)
