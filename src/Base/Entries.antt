-- ===== src/Base/Entries.antt =====
-- The entries of a map: a predicate that all of them satisfy, and a sum over them.
use Prim.Native.Nat.{ℕ, ◌+◌}
use mathlib.Core.Path.{◌≡◌}
use mathlib.Core.Logic.{inl, inr}
use mathlib.Core.List.{List, [], ◌∷◌}
use mathlib.Core.Option.{some}
use native.Mathlib.Omega.{arith}
use waffle.Base.Tests.{Comparable, ◌==◌, Bool-cases}
use waffle.Base.Lists.{All, Elem}
use waffle.Base.Maps.{Map, insert, lookup, IsMap}

pub Elem-All : {A : Type 0} (P : A → Type 0) (a : A) (xs : List A) → All P xs → Elem a xs → P a
Elem-All P a [] h place = absurd place
Elem-All P a (x ∷ xs) (p, h) (inl same) = rw same p
Elem-All P a (x ∷ xs) (p, h) (inr place) = Elem-All P a xs h place

-- The sum of a measure of the values.
unfoldable pub total : {K V : Type 0} → (V → ℕ) → Map K V → ℕ
total f [] = 0
total f ((j, w) ∷ m) = f w + total f m

module _ {K V : Type 0} ⦃c : Comparable K⦄ where
  pub insert-insert : (k : K) (v w : V) (m : Map K V) → insert k v (insert k w m) ≡ insert k v m
  unfolding insert
  insert-insert k v w [] = ground (arith, c.equals_iff k k)
  insert-insert k v w ((j, e) ∷ m) = ground (arith, c.equals_iff k k, insert-insert k v w m)

  pub All-insert :
      (P : K × V → Type 0) (k : K) (v : V) (m : Map K V) → P (k, v) → All P m → All P (insert k v m)
  unfolding insert
  All-insert P k v [] p h = (p, tt)
  All-insert P k v ((j, e) ∷ m) p (q, h) = elim (Bool-cases (j == k)) [
    | inl t ↦ rw t (p, h)
    | inr t ↦ rw t (q, All-insert P k v m p h)
  ]

  pub lookup-Elem : (k : K) (v : V) (m : Map K V) → IsMap m → Elem (k, v) m → lookup k m ≡ some v
  unfolding lookup
  lookup-Elem k v [] is place = absurd place
  lookup-Elem k v ((j, e) ∷ m) (gone, is) place =
      ground (arith, c.equals_iff k k, c.equals_iff j k, lookup-Elem k v m is)

  pub total-insert :
      (f : V → ℕ) (k : K) (v old : V) (m : Map K V)
      → lookup k m ≡ some old
      → total f (insert k v m) + f old ≡ total f m + f v
  unfolding insert lookup total
  total-insert f k v old [] h = ground arith
  total-insert f k v old ((j, e) ∷ m) h = ground (arith, total-insert f k v old m)
