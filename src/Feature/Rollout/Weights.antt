-- ===== src/Feature/Rollout/Weights.antt =====
-- `selectVariant` gives each variant as many of the hash's remainders as its weight says.
use waffle.Base.{
  ℕ, ◌+◌, ◌%◌, ◌^◌, ◌<◌, ◌≡◌, refl, false, some, List, [], ◌∷◌, ◌++◌, eqb, Text, arith,
}
use native.Mathlib.Nat
use waffle.Feature.Rollout.{
  Variant, weight_of, total_weight, pick, selected, select_variant, fnv_32a, colon_variant,
}

module _ {V : Type 0} where
  total_weight-append :
      (before : List (Variant V)) (v : Variant V) (after : List (Variant V))
      → total_weight (before ++ v ∷ after)
        ≡ total_weight before + (weight_of v + total_weight after)
  unfolding total_weight
  total_weight-append [] v after = omega arith
  total_weight-append (u ∷ before) v after = ground (arith, total_weight-append before v after)

  pick-append :
      (hash c j : ℕ) (before : List (Variant V)) (v : Variant V) (after : List (Variant V))
      → hash ≡ c + total_weight before + j
      → j < weight_of v
      → pick hash c (before ++ v ∷ after) ≡ some v
  unfolding pick total_weight
  pick-append hash c j [] v after e h = ground arith
  pick-append hash c j (u ∷ before) v after e h =
      ground (arith, pick-append hash (c + weight_of u) j before v after)

  -- `selectVariant` selects a variant exactly for as many remainders of the hash by the total
  -- weight as its own weight says: those that follow the weights of the variants before it.
  pub select_variant-append :
      (flag_key user_id : Text) (before : List (Variant V)) (v : Variant V)
      (after : List (Variant V)) (j : ℕ)
      → let all = before ++ v ∷ after in
        total_weight all < 2 ^ 32
        → fnv_32a (flag_key ++ (colon_variant ++ user_id)) % total_weight all
          ≡ total_weight before + j
        → j < weight_of v
        → select_variant flag_key all user_id ≡ selected v
  unfolding select_variant
  select_variant-append flag_key user_id before v after j small e h =
      let all = before ++ v ∷ after in
      let total = total_weight all in
      let hash = fnv_32a (flag_key ++ (colon_variant ++ user_id)) in
      let word : total % 2 ^ 32 ≡ total = Nat.mod-eq_of_lt small in
      let some_weight : 0 < total = ground (arith, total_weight-append before v after) in
      let zero_test : eqb total 0 ≡ false = ground arith in
      let word_test : eqb (total % 2 ^ 32) 0 ≡ false = rw word zero_test in
      let chosen : pick (hash % (total % 2 ^ 32)) 0 all ≡ some v =
        rw word (pick-append (hash % total) 0 j before v after (omega arith) h) in
      rw (zero_test, word_test, chosen) refl
