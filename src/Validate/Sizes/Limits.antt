-- ===== src/Validate/Sizes/Limits.antt =====
-- pantry/validate/rules.go: between beside min and max, and the loop of unique.
use waffle.Base.{
  ◌≡◌, ◌↔◌, inl, inr, refl, sym, true, Bool-cases, Option, none, some, List, [], ◌∷◌, Comparable,
  ◌==◌, Elem, Text, arith, split,
}
use waffle.Validate.Sizes.{
  Numbers, Value, size_of, rule_min, rule_max, rule_between, refuse_if, in_range, has_item,
  unique_from, rule_unique,
}

in_range_lem :
    (n : Numbers) (min max : n.Float) (x : Option n.Float)
    → (in_range n (some min) (some max) x ≡ "") ↔ (
        (refuse_if n "min" (λ a b. n.less a b) x (some min) ≡ "")
        × (refuse_if n "max" (λ a b. n.less b a) x (some max) ≡ ""))
in_range_lem n min max none = (λ h. (refl, refl), λ h. refl)
in_range_lem n min max (some x) = elim (Bool-cases (n.less x min)) [
  | inl e ↦ rw e (λ h. absurd cc, λ h. absurd cc)
  | inr e ↦ elim (Bool-cases (n.less max x)) [
    | inl e' ↦ rw (e, e') (λ h. absurd cc, λ h. absurd cc)
    | inr e' ↦ rw (e, e') (λ h. (refl, refl), λ h. refl)
  ]
]

-- A value passes `between` with two limits that are numbers just if it passes `min` with the one
-- and `max` with the other, whatever its kind.
pub rule_between_lem :
    (n : Numbers) (param low high : Text) (min max : n.Float) (v : Value n.Float)
    → split b'|' [] param ≡ low ∷ high ∷ []
    → n.parse_float low ≡ some min
    → n.parse_float high ≡ some max
    → (rule_between n param v ≡ "") ↔ ((rule_min n low v ≡ "") × (rule_max n high v ≡ ""))
unfolding rule_min rule_max rule_between
rule_between_lem n param low high min max v e el eh =
    rw (e, el, eh, rule_between) (in_range_lem n min max (size_of n v))

-- No item stands twice.
abbrev pub AllDifferent : {A : Type 0} → List A → Type 0
AllDifferent [] = Unit
AllDifferent (x ∷ xs) = (¬ Elem x xs) × AllDifferent xs

module _ {A : Type 0} ⦃c : Comparable A⦄ where
  has_item_lem : (x : A) (xs : List A) → (has_item x xs ≡ true) ↔ Elem x xs
  unfolding has_item
  has_item_lem x [] = (λ h. cc, λ h. absurd h)
  has_item_lem x (y ∷ ys) = (
    λ h. elim (Bool-cases (x == y)) [
      | inl e ↦ inl ((c.equals_iff x y).0 e)
      | inr e ↦ inr ((has_item_lem x ys).0 (rw (e, has_item) at h))
    ],
    λ h. ground (arith, c.equals_iff x y, (has_item_lem x ys).1),
  )

  -- None of the items stands in the list of those that were seen.
  abbrev AllNew : List A → List A → Type 0
  AllNew seen [] = Unit
  AllNew seen (x ∷ xs) = (¬ Elem x seen) × AllNew seen xs

  AllNew-cons : (y : A) (seen xs : List A) → AllNew (y ∷ seen) xs ↔ ((¬ Elem y xs) × AllNew seen xs)
  AllNew-cons y seen [] = (λ h. (λ e. e, tt), λ h. tt)
  AllNew-cons y seen (x ∷ xs) =
      let rest = AllNew-cons y seen xs in
      (
        λ (h, k). (
          λ e. elim e [ inl same ↦ h (inl (sym same)) | inr later ↦ (rest.0 k).0 later ],
          (λ e. h (inr e), (rest.0 k).1),
        ),
        λ (h, (k, l)). (
          λ e. elim e [ inl same ↦ h (inl (sym same)) | inr earlier ↦ k earlier ],
          rest.1 (λ e. h (inr e), l),
        ),
      )

  unique_from_lem :
      (seen xs : List A) → (unique_from seen xs ≡ "") ↔ (AllDifferent xs × AllNew seen xs)
  unfolding unique_from
  unique_from_lem seen [] = (λ h. (tt, tt), λ h. refl)
  unique_from_lem seen (x ∷ xs) =
      let rest = unique_from_lem (x ∷ seen) xs in
      let fresh = AllNew-cons x seen xs in
      elim (Bool-cases (has_item x seen)) [
        | inl e ↦ rw e (λ h. absurd cc, λ (h, (k, l)). absurd (k ((has_item_lem x seen).0 e)))
        | inr e ↦ rw e (
          λ h.
              let (different, new) = rest.0 h in
              let (later, old) = fresh.0 new in
              ((later, different), (λ place. cc (e, (has_item_lem x seen).1 place), old)),
          λ ((later, different), (k, l)). rest.1 (different, fresh.1 (later, l)),
        )
      ]

  AllNew-nil : (xs : List A) → AllNew [] xs
  AllNew-nil [] = tt
  AllNew-nil (x ∷ xs) = (λ e. e, AllNew-nil xs)

  -- A list passes `unique` just if no item stands twice in it.
  pub rule_unique_lem : (xs : List A) → (rule_unique xs ≡ "") ↔ AllDifferent xs
  unfolding rule_unique
  rule_unique_lem xs =
      (λ h. ((unique_from_lem [] xs).0 h).0, λ h. (unique_from_lem [] xs).1 (h, AllNew-nil xs))
