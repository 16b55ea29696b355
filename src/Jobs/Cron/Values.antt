-- ===== src/Jobs/Cron/Values.antt =====
-- The lists of values that a cron field stands for: allValues, stepValues, uniqueSorted, contains.
use waffle.Base.{
  ℕ, zero, suc, ◌+◌, ◌-◌, Bool, true, false, ◌||◌, Option, none, some, List, [], ◌∷◌, ℤ, pos,
  negsuc, ◌+ℤ◌, ◌-ℤ◌, leb_ℤ, ltb_ℤ, eqb_ℤ, if◌then◌else◌, length,
}

-- The result of `+` on two values of 64 bits.
unfoldable pub add_64 : ℤ → ℤ → ℤ
add_64 a b =
    let s = a +ℤ b in
    if ltb_ℤ s (pos 0x8000_0000_0000_0000)
    then (if ltb_ℤ s (negsuc 0x7fff_ffff_ffff_ffff) then s +ℤ pos 0x1_0000_0000_0000_0000 else s)
    else s -ℤ pos 0x1_0000_0000_0000_0000

-- `n` values from `start` on.
unfoldable pub count_up : ℕ → ℕ → List ℤ
count_up zero start = []
count_up (suc n) start = pos start ∷ count_up n (start + 1)

-- The callers give numbers with `min <= max`.
unfoldable pub all_values : ℕ → ℕ → List ℤ
unfolding count_up
all_values min max = count_up (max + 1 - min) min

-- The loop of `stepValues` at `i`, with fuel; `none` means that the fuel ran out.
unfoldable pub step_loop : ℕ → ℤ → ℤ → ℤ → Option (List ℤ)
step_loop zero i max step = none
step_loop (suc fuel) i max step =
    let rest = step_loop fuel (add_64 i step) max step in
    if leb_ℤ i max then elim rest [ none ↦ none | some vs ↦ some (i ∷ vs) ] else some []

abbrev pub step_fuel : ℕ → ℕ
step_fuel max = max + 5

unfoldable pub step_values : ℕ → ℕ → ℤ → Option (List ℤ)
unfolding step_loop
step_values min max step = step_loop (step_fuel max) (pos min) (pos max) step

unfoldable pub contains : List ℤ → ℤ → Bool
contains [] val = false
contains (v ∷ vs) val = eqb_ℤ v val || contains vs val

-- The first loop of `uniqueSorted`; `seen` holds the values met so far.
unfoldable pub unique : List ℤ → List ℤ → List ℤ
unfolding contains
unique seen [] = []
unique seen (v ∷ vs) = elim (contains seen v) [
  | true ↦ unique seen vs
  | false ↦ v ∷ unique (v ∷ seen) vs
]

-- The inner loop of the sort: `x` stands in `result[i]` and the list behind it; a smaller value
-- is exchanged with it. The result is the new `result[i]` and what stands behind it.
unfoldable pub sweep : ℤ → List ℤ → ℤ × List ℤ
sweep x [] = (x, [])
sweep x (y ∷ ys) =
    let (least, rest) = sweep (if ltb_ℤ y x then y else x) ys in
    (least, (if ltb_ℤ y x then x else y) ∷ rest)

-- The outer loop, for as many rounds as there are values.
unfoldable pub exchange_sort : ℕ → List ℤ → List ℤ
unfolding sweep
exchange_sort zero xs = xs
exchange_sort (suc n) [] = []
exchange_sort (suc n) (x ∷ xs) = let (least, rest) = sweep x xs in least ∷ exchange_sort n rest

unfoldable pub unique_sorted : List ℤ → List ℤ
unfolding unique exchange_sort
unique_sorted values = let result = unique [] values in exchange_sort (length result) result
