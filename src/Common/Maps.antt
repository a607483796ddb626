-- ===== src/Common/Maps.antt =====
-- Go maps as association lists, over keys that `==` compares. `m[k] = v` keeps the place of a
-- key that is present and adds a new key at the end.
use mathlib.Core.List.{List, [], ◌∷◌}
use mathlib.Core.Option.{Option, none, some}
use mathlib.Core.Path.{◌≡◌, refl}
use native.Mathlib.Omega.{arith}
use cloud_credit_system.Common.Tests.{Key, ◌==◌, if◌then◌else◌}

abbrev pub Map {ℓ κ} : Type ℓ → Type κ → Type (ℓ ⊔ κ)
Map K V = List (K × V)

module _ {ℓ κ} {K : Type ℓ} {V : Type κ} ⦃e : Key K⦄ where
  -- `v, ok := m[key]`
  abbrev pub lookup : K → Map K V → Option V
  lookup key [] = none
  lookup key ((k, v) ∷ rest) = if k == key then some v else lookup key rest

  -- `m[key] = new`
  abbrev pub insert : K → V → Map K V → Map K V
  insert key new [] = (key, new) ∷ []
  insert key new ((k, old) ∷ rest) =
      if k == key then (k, new) ∷ rest else (k, old) ∷ insert key new rest

  -- `delete(m, key)`
  abbrev pub erase : K → Map K V → Map K V
  erase key [] = []
  erase key ((k, v) ∷ rest) = if k == key then erase key rest else (k, v) ∷ erase key rest

  -- A read after a write.
  pub lookup-insert :
      (key q : K) (new : V) (m : Map K V)
      → lookup q (insert key new m) ≡ (if key == q then some new else lookup q m)
  lookup-insert key q new [] = refl
  lookup-insert key q new ((k, old) ∷ rest) =
      ground
        (arith, lookup-insert key q new rest, e.same_iff k key, e.same_iff k q, e.same_iff key q)

  -- A read after a delete.
  pub lookup-erase :
      (key q : K) (m : Map K V) → lookup q (erase key m) ≡ (if key == q then none else lookup q m)
  lookup-erase key q [] = ground arith
  lookup-erase key q ((k, old) ∷ rest) =
      ground (arith, lookup-erase key q rest, e.same_iff k key, e.same_iff k q, e.same_iff key q)

  -- No key is listed twice, as in every map that is built from the empty one by the operations above.
  abbrev pub IsUnique : Map K V → Type κ
  IsUnique [] = Unit
  IsUnique ((k, v) ∷ rest) = (lookup k rest ≡ none) × IsUnique rest

  pub insert-IsUnique : (key : K) (new : V) (m : Map K V) → IsUnique m → IsUnique (insert key new m)
  insert-IsUnique key new [] u = (refl, tt)
  insert-IsUnique key new ((k, old) ∷ rest) u = ground (
    arith,
    insert-IsUnique key new rest,
    lookup-insert key k new rest,
    e.same_iff k key,
    e.same_iff key k,
  )
