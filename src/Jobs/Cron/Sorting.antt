-- ===== src/Jobs/Cron/Sorting.antt =====
-- uniqueSorted: the same values, each once and in increasing order.
use waffle.Base.{
  ℕ, zero, suc, ◌≡◌, ◌≢◌, refl, sym, ap, ◌↔◌, ◌⊎◌, inl, inr, true, false, List, [], ◌∷◌, ℤ, ◌<ℤ◌,
  ◌≤ℤ◌, ltb_ℤ, eq_of_parts, length, All, Elem, arith, Bool-cases, if◌then◌else◌,
}
use mathlib.Core.Path.{subst}
use waffle.Jobs.Cron.Values.{contains, unique, sweep, exchange_sort, unique_sorted}

abbrev pub IsIncreasing : List ℤ → Type 0
IsIncreasing [] = Unit
IsIncreasing (x ∷ xs) = All (λ y. x <ℤ y) xs × IsIncreasing xs

-- No value stands twice.
abbrev IsUnique : List ℤ → Type 0
IsUnique [] = Unit
IsUnique (x ∷ xs) = (¬ Elem x xs) × IsUnique xs

contains-Elem : (vs : List ℤ) (v : ℤ) → (contains vs v ≡ true) ↔ Elem v vs
unfolding contains
contains-Elem [] v = (λ e. cc, λ h. absurd h)
contains-Elem (x ∷ xs) v =
    ground (arith, (contains-Elem xs v).0, (contains-Elem xs v).1, eq_of_parts x v)

not-Elem_of_contains : (vs : List ℤ) (v : ℤ) → contains vs v ≡ false → ¬ Elem v vs
not-Elem_of_contains vs v e h = cc (e, (contains-Elem vs v).1 h)

unique-fresh : (seen xs : List ℤ) (v : ℤ) → Elem v seen → ¬ Elem v (unique seen xs)
unfolding unique
unique-fresh seen [] v s h = h
unique-fresh seen (x ∷ xs) v s h = elim (Bool-cases (contains seen x)) [
  | inl e ↦ unique-fresh seen xs v s (rw (e, unique) at h)
  | inr e ↦
      let h' : Elem v (x ∷ unique (x ∷ seen) xs) = rw (e, unique) at h in
      elim h' [
        | inl p ↦ not-Elem_of_contains seen x e (rw (← p) s)
        | inr q ↦ unique-fresh (x ∷ seen) xs v (inr s) q
      ]
]

Elem-unique : (seen xs : List ℤ) (v : ℤ) → Elem v (unique seen xs) → Elem v xs
unfolding unique
Elem-unique seen [] v h = h
Elem-unique seen (x ∷ xs) v h = elim (Bool-cases (contains seen x)) [
  | inl e ↦ inr (Elem-unique seen xs v (rw (e, unique) at h))
  | inr e ↦
      let h' : Elem v (x ∷ unique (x ∷ seen) xs) = rw (e, unique) at h in
      elim h' [ inl p ↦ inl p | inr q ↦ inr (Elem-unique (x ∷ seen) xs v q) ]
]

unique-Elem : (seen xs : List ℤ) (v : ℤ) → Elem v xs → Elem v (unique seen xs) ⊎ Elem v seen
unfolding unique
unique-Elem seen [] v h = absurd h
unique-Elem seen (x ∷ xs) v (inl p) = elim (Bool-cases (contains seen x)) [
  | inl e ↦ inr (rw p ((contains-Elem seen x).0 e))
  | inr e ↦ rw (e, unique) (inl (inl p))
]
unique-Elem seen (x ∷ xs) v (inr q) = elim (Bool-cases (contains seen x)) [
  | inl e ↦ rw (e, unique) (unique-Elem seen xs v q)
  | inr e ↦
      rw (e, unique)
        (elim (unique-Elem (x ∷ seen) xs v q) [
          | inl r ↦ inl (inr r)
          | inr (inl p) ↦ inl (inl p)
          | inr (inr r) ↦ inr r
        ])
]

unique-IsUnique : (seen xs : List ℤ) → IsUnique (unique seen xs)
unfolding unique
unique-IsUnique seen [] = tt
unique-IsUnique seen (x ∷ xs) = elim (Bool-cases (contains seen x)) [
  | inl e ↦ rw (e, unique) (unique-IsUnique seen xs)
  | inr e ↦ rw (e, unique) (unique-fresh (x ∷ seen) xs x (inl refl), unique-IsUnique (x ∷ seen) xs)
]

-- The value that goes on in `sweep`, and the one that stays behind.
abbrev lower : ℤ → ℤ → ℤ
lower x y = if ltb_ℤ y x then y else x

abbrev upper : ℤ → ℤ → ℤ
upper x y = if ltb_ℤ y x then x else y

lower_cases :
    (x y : ℤ)
    → ((lower x y ≡ x) × (upper x y ≡ y) × (x ≤ℤ y))
      ⊎ ((lower x y ≡ y) × (upper x y ≡ x) × (y ≤ℤ x))
lower_cases x y = ground arith

sweep-Elem :
    (x : ℤ) (ys : List ℤ) (v : ℤ) → Elem v ((sweep x ys).0 ∷ (sweep x ys).1) ↔ Elem v (x ∷ ys)
unfolding sweep
sweep-Elem x [] v = (λ h. h, λ h. h)
sweep-Elem x (y ∷ ys) v =
    through (sweep (lower x y) ys).1 (lower_cases x y) (sweep-Elem (lower x y) ys v)
  where
    through :
        {a b m : ℤ} (r : List ℤ)
        → ((a ≡ x) × (b ≡ y) × (x ≤ℤ y)) ⊎ ((a ≡ y) × (b ≡ x) × (y ≤ℤ x))
        → Elem v (m ∷ r) ↔ Elem v (a ∷ ys)
        → Elem v (m ∷ b ∷ r) ↔ Elem v (x ∷ y ∷ ys)
    through r c ih = ground (arith, ih.0, ih.1)

sweep-le :
    (x : ℤ) (ys : List ℤ) → All (λ y. (sweep x ys).0 ≤ℤ y) (sweep x ys).1 × ((sweep x ys).0 ≤ℤ x)
unfolding sweep
sweep-le x [] = (tt, omega arith)
sweep-le x (y ∷ ys) =
    let (all, least) = sweep-le (lower x y) ys in
    elim (lower_cases x y) [
      | inl (e, e', h) ↦ ((ground arith, all), ground arith)
      | inr (e, e', h) ↦ ((ground arith, all), ground arith)
    ]

sweep-IsUnique :
    (x : ℤ) (ys : List ℤ) → IsUnique (x ∷ ys) → IsUnique ((sweep x ys).0 ∷ (sweep x ys).1)
unfolding sweep
sweep-IsUnique x [] u = u
sweep-IsUnique x (y ∷ ys) u =
    let (fresh, rest) = sweep-IsUnique (lower x y) ys (lower_fresh, u.1.1) in
    let apart : ¬ Elem (upper x y) ((sweep (lower x y) ys).0 ∷ (sweep (lower x y) ys).1) =
      λ h. upper_fresh ((sweep-Elem (lower x y) ys (upper x y)).0 h) in
    (λ h. elim h [ inl p ↦ apart (inl (sym p)) | inr q ↦ fresh q ], (λ h. apart (inr h), rest))
  where
    lower_fresh : ¬ Elem (lower x y) ys
    lower_fresh h = elim (lower_cases x y) [
      | inl (e, _, _) ↦ u.0 (inr (rw e at h))
      | inr (e, _, _) ↦ u.1.0 (rw e at h)
    ]

    upper_fresh : ¬ Elem (upper x y) (lower x y ∷ ys)
    upper_fresh h = elim (lower_cases x y) [
      | inl (e, e', _) ↦ elim h [
        | inl p ↦ u.0 (inl (cc (e, e', p)))
        | inr q ↦ u.1.0 (subst (λ z. Elem z ys) e' q)
      ]
      | inr (e, e', _) ↦ elim h [
        | inl p ↦ u.0 (inl (cc (e, e', p)))
        | inr q ↦ u.0 (inr (subst (λ z. Elem z ys) e' q))
      ]
    ]

length-sweep : (x : ℤ) (ys : List ℤ) → length (sweep x ys).1 ≡ length ys
unfolding sweep
length-sweep x [] = refl
length-sweep x (y ∷ ys) = ap suc (length-sweep (lower x y) ys)

exchange_sort-Elem : (n : ℕ) (xs : List ℤ) (v : ℤ) → Elem v (exchange_sort n xs) ↔ Elem v xs
unfolding exchange_sort
exchange_sort-Elem zero xs v = (λ h. h, λ h. h)
exchange_sort-Elem (suc n) [] v = (λ h. h, λ h. h)
exchange_sort-Elem (suc n) (x ∷ xs) v =
    let ih = exchange_sort-Elem n (sweep x xs).1 v in
    let swept = sweep-Elem x xs v in
    (
      λ h. swept.0 (elim h [ inl p ↦ inl p | inr q ↦ inr (ih.0 q) ]),
      λ h. elim (swept.1 h) [ inl p ↦ inl p | inr q ↦ inr (ih.1 q) ],
    )

pub All-of-Elem : (P : ℤ → Type 0) (xs : List ℤ) → ((v : ℤ) → Elem v xs → P v) → All P xs
All-of-Elem P [] h = tt
All-of-Elem P (x ∷ xs) h = (h x (inl refl), All-of-Elem P xs (λ v e. h v (inr e)))

pub Elem-All : (P : ℤ → Type 0) (xs : List ℤ) (v : ℤ) → All P xs → Elem v xs → P v
Elem-All P [] v h e = absurd e
Elem-All P (x ∷ xs) v h (inl p) = rw p h.0
Elem-All P (x ∷ xs) v h (inr q) = Elem-All P xs v h.1 q

exchange_sort-IsIncreasing :
    (n : ℕ) (xs : List ℤ) → length xs ≡ n → IsUnique xs → IsIncreasing (exchange_sort n xs)
unfolding exchange_sort
exchange_sort-IsIncreasing zero [] e u = tt
exchange_sort-IsIncreasing zero (x ∷ xs) e u = absurd (omega arith)
exchange_sort-IsIncreasing (suc n) [] e u = tt
exchange_sort-IsIncreasing (suc n) (x ∷ xs) e u =
    let (fresh, rest) = sweep-IsUnique x xs u in
    let (least, rest') = sweep x xs in
    (
      All-of-Elem (λ y. least <ℤ y) (exchange_sort n rest')
          (λ v h.
            let h' = (exchange_sort-Elem n rest' v).0 h in
            let le : least ≤ℤ v = Elem-All (λ y. least ≤ℤ y) rest' v (sweep-le x xs).0 h' in
            lt_of_le_of_ne least v le (λ p. fresh (rw p h'))),
      exchange_sort-IsIncreasing n rest' (omega (arith, length-sweep x xs)) rest,
    )
  where
    lt_of_le_of_ne : (a b : ℤ) → a ≤ℤ b → a ≢ b → a <ℤ b
    lt_of_le_of_ne a b h ne = ground (arith, eq_of_parts a b)

-- `uniqueSorted` gives the same values, each once and in increasing order.
pub unique_sorted-IsIncreasing :
    (values : List ℤ)
    → IsIncreasing (unique_sorted values)
      × ((v : ℤ) → Elem v (unique_sorted values) ↔ Elem v values)
unfolding unique_sorted
unique_sorted-IsIncreasing values =
    let result = unique [] values in
    (
      exchange_sort-IsIncreasing (length result) result refl (unique-IsUnique [] values),
      λ v. (
        λ h. Elem-unique [] values v ((exchange_sort-Elem (length result) result v).0 h),
        λ h.
            (exchange_sort-Elem (length result) result v).1
              (elim (unique-Elem [] values v h) [ inl q ↦ q | inr q ↦ absurd q ]),
      ),
    )
