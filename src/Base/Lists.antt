-- ===== src/Base/Lists.antt =====
-- Lists measured by native numbers, and predicates on their elements by recursion.
use Prim.Native.Nat.{ℕ, zero, suc, ◌+◌, ◌≤◌}
use mathlib.Core.Path.{◌≡◌, refl, ap}
use mathlib.Core.Logic.{◌⊎◌}
use mathlib.Core.List.{List, [], ◌∷◌, ◌++◌}
use native.Mathlib.Omega.{arith}

module _ {ℓ} {A : Type ℓ} where
  abbrev pub length : List A → ℕ
  length [] = 0
  length (x ∷ xs) = suc (length xs)

  abbrev pub replicate : ℕ → A → List A
  replicate zero a = []
  replicate (suc n) a = a ∷ replicate n a

  pub length-append : (xs ys : List A) → length (xs ++ ys) ≡ length xs + length ys
  length-append [] ys = omega arith
  length-append (x ∷ xs) ys = omega (arith, length-append xs ys)

-- Every element satisfies `P`.
abbrev pub All {ℓ κ} : {A : Type ℓ} → (A → Type κ) → List A → Type κ
All P [] = Unit
All P (x ∷ xs) = P x × All P xs

pub All-map {ℓ κ μ} :
    {A : Type ℓ} {P : A → Type κ} {Q : A → Type μ}
    → ((a : A) → P a → Q a)
    → (xs : List A) → All P xs
    → All Q xs
All-map f [] h = tt
All-map f (x ∷ xs) (p, h) = (f x p, All-map f xs h)

-- `a` stands in the list.
abbrev pub Elem : {A : Type 0} → A → List A → Type 0
Elem a [] = ⊥
Elem a (x ∷ xs) = (a ≡ x) ⊎ Elem a xs

-- The list turned round, before `acc`.
unfoldable pub reverse_onto {ℓ} : {A : Type ℓ} → List A → List A → List A
reverse_onto [] acc = acc
reverse_onto (x ∷ xs) acc = reverse_onto xs (x ∷ acc)

-- The first `n` elements, or all.
abbrev pub take_first {ℓ} : {A : Type ℓ} → ℕ → List A → List A
take_first zero xs = []
take_first (suc n) [] = []
take_first (suc n) (x ∷ xs) = x ∷ take_first n xs

-- The list without its first `n` elements.
abbrev pub skip_first {ℓ} : {A : Type ℓ} → ℕ → List A → List A
skip_first zero xs = xs
skip_first (suc n) [] = []
skip_first (suc n) (x ∷ xs) = skip_first n xs

module _ {ℓ} {A : Type ℓ} where
  pub append-nil : (xs : List A) → xs ++ [] ≡ xs
  append-nil [] = refl
  append-nil (x ∷ xs) = ap (λ r. x ∷ r) (append-nil xs)

  pub reverse_onto-append :
      (xs ys zs : List A) → reverse_onto xs (ys ++ zs) ≡ reverse_onto xs ys ++ zs
  unfolding reverse_onto
  reverse_onto-append [] ys zs = refl
  reverse_onto-append (x ∷ xs) ys zs = reverse_onto-append xs (x ∷ ys) zs

  pub reverse_onto-reverse_onto :
      (xs ys zs : List A) → reverse_onto (reverse_onto xs ys) zs ≡ reverse_onto ys (xs ++ zs)
  unfolding reverse_onto
  reverse_onto-reverse_onto [] ys zs = refl
  reverse_onto-reverse_onto (x ∷ xs) ys zs = reverse_onto-reverse_onto xs (x ∷ ys) zs

  pub length-reverse_onto :
      (xs acc : List A) → length (reverse_onto xs acc) ≡ length xs + length acc
  unfolding reverse_onto
  length-reverse_onto [] acc = omega arith
  length-reverse_onto (x ∷ xs) acc = omega (arith, length-reverse_onto xs (x ∷ acc))

  pub take_first-take_suc :
      (n : ℕ) (xs : List A) → take_first n (take_first (suc n) xs) ≡ take_first n xs
  take_first-take_suc zero xs = refl
  take_first-take_suc (suc n) [] = refl
  take_first-take_suc (suc n) (x ∷ xs) = ap (λ r. x ∷ r) (take_first-take_suc n xs)

  pub take_first-suc :
      (n : ℕ) (x : A) (xs : List A) → take_first n (x ∷ take_first n xs) ≡ take_first n (x ∷ xs)
  take_first-suc zero x xs = refl
  take_first-suc (suc n) x xs = ap (λ r. x ∷ r) (take_first-take_suc n xs)

  pub take_first-all : (n : ℕ) (xs : List A) → length xs ≤ n → take_first n xs ≡ xs
  take_first-all zero [] h = refl
  take_first-all zero (x ∷ xs) h = absurd (omega arith)
  take_first-all (suc n) [] h = refl
  take_first-all (suc n) (x ∷ xs) h = ap (λ r. x ∷ r) (take_first-all n xs (omega arith))

  pub length-take_first : (n : ℕ) (xs : List A) → length (take_first n xs) ≤ n
  length-take_first zero xs = omega arith
  length-take_first (suc n) [] = omega arith
  length-take_first (suc n) (x ∷ xs) = omega (arith, length-take_first n xs)
