-- ===== src/Base/Maps.antt =====
-- Go's `map[K]V` as an association list with one entry for each key.
use mathlib.Core.Path.{◌≡◌, refl}
use mathlib.Core.Bool.{Bool}
use mathlib.Core.List.{List, [], ◌∷◌}
use mathlib.Core.Option.{Option, none, some}
use native.Mathlib.Omega.{arith}
use waffle.Base.Tests.{Comparable, ◌==◌, if◌then◌else◌}

abbrev pub Map {ℓ κ} : Type ℓ → Type κ → Type (ℓ ⊔ κ)
Map K V = List (K × V)

-- `for k, v := range m { if drop(v) { delete(m, k) } }`
unfoldable pub delete_if {ℓ κ} : {K : Type ℓ} {V : Type κ} → (V → Bool) → Map K V → Map K V
delete_if drop [] = []
delete_if drop ((j, w) ∷ m) = let rest = delete_if drop m in if drop w then rest else (j, w) ∷ rest

-- What is left of an entry when those that satisfy `drop` are deleted.
abbrev pub unless {κ} : {V : Type κ} → (V → Bool) → Option V → Option V
unless drop none = none
unless drop (some v) = if drop v then none else some v

module _ {ℓ κ} {K : Type ℓ} {V : Type κ} ⦃c : Comparable K⦄ where
  -- `delete(m, k)`
  unfoldable pub erase : K → Map K V → Map K V
  erase key [] = []
  erase key (e ∷ others) = let rest = erase key others in if e.0 == key then rest else e ∷ rest

  -- `m[k] = v`
  unfoldable pub insert : K → V → Map K V → Map K V
  insert key value [] = (key, value) ∷ []
  insert key value (e ∷ others) =
      let rest = insert key value others in if e.0 == key then (key, value) ∷ others else e ∷ rest

  -- `v, ok := m[k]`
  unfoldable pub lookup : K → Map K V → Option V
  lookup key [] = none
  lookup key (e ∷ others) = let rest = lookup key others in if e.0 == key then some e.1 else rest

  -- No key has two entries.
  abbrev pub IsMap : Map K V → Type κ
  IsMap [] = Unit
  IsMap ((k, v) ∷ m) = (lookup k m ≡ none) × IsMap m

  pub lookup-insert :
      (key other : K) (value : V) (m : Map K V)
      → lookup other (insert key value m) ≡ (if key == other then some value else lookup other m)
  unfolding insert lookup
  lookup-insert key other value [] = refl
  lookup-insert key other value (e ∷ m) = ground (
    arith,
    lookup-insert key other value m,
    c.equals_iff e.0 key,
    c.equals_iff e.0 other,
    c.equals_iff key other,
  )

  pub lookup-erase :
      (k j : K) (m : Map K V) → lookup j (erase k m) ≡ (if k == j then none else lookup j m)
  unfolding lookup erase
  lookup-erase k j [] = ground arith
  lookup-erase k j ((i, w) ∷ m) =
      ground (arith, c.equals_iff k j, c.equals_iff i k, c.equals_iff i j, lookup-erase k j m)

  pub lookup-delete_if-none :
      (drop : V → Bool) (j : K) (m : Map K V)
      → lookup j m ≡ none
      → lookup j (delete_if drop m) ≡ none
  unfolding lookup delete_if
  lookup-delete_if-none drop j [] h = refl
  lookup-delete_if-none drop j ((i, w) ∷ m) h = ground (arith, lookup-delete_if-none drop j m)

  pub lookup-delete_if :
      (drop : V → Bool) (j : K) (m : Map K V)
      → IsMap m
      → lookup j (delete_if drop m) ≡ unless drop (lookup j m)
  unfolding lookup delete_if
  lookup-delete_if drop j [] h = refl
  lookup-delete_if drop j ((i, w) ∷ m) h =
      ground
        (arith, c.equals_iff i j, lookup-delete_if drop j m h.1, lookup-delete_if-none drop j m)

  pub insert-IsMap : (k : K) (v : V) (m : Map K V) → IsMap m → IsMap (insert k v m)
  unfolding lookup insert
  insert-IsMap k v [] h = ground arith
  insert-IsMap k v ((i, w) ∷ m) h =
      ground
        (arith, c.equals_iff i k, c.equals_iff k i, lookup-insert k i v m, insert-IsMap k v m h.1)

  pub erase-IsMap : (k : K) (m : Map K V) → IsMap m → IsMap (erase k m)
  unfolding lookup erase
  erase-IsMap k [] h = tt
  erase-IsMap k ((i, w) ∷ m) h = ground (arith, lookup-erase k i m, erase-IsMap k m h.1)

  pub delete_if-IsMap : (drop : V → Bool) (m : Map K V) → IsMap m → IsMap (delete_if drop m)
  unfolding delete_if
  delete_if-IsMap drop [] h = tt
  delete_if-IsMap drop ((i, w) ∷ m) h =
      ground (arith, lookup-delete_if-none drop i m, delete_if-IsMap drop m h.1)
