-- ===== src/Feature/Rollout.antt =====
-- Gradual rollout and the choice of a variant in feature.go, by an FNV-1a hash of 32 bits, which
-- `hash/fnv` computes.
pub mod Weights
use Prim.Native.Nat.{bit_xor}
use waffle.Base.{
  ℕ, zero, suc, ◌+◌, ◌*◌, ◌%◌, ◌^◌, Bool, true, false, Option, none, some, List, [], ◌∷◌, ◌++◌, ℤ,
  pos, pos_part, eqb, ltb, ltb_ℤ, leb_ℤ, if◌then◌else◌, Text,
}

unfoldable pub fnv_from : ℕ → Text → ℕ
fnv_from hash [] = hash
fnv_from hash (b ∷ bs) = fnv_from (bit_xor hash b * 16_777_619 % 2 ^ 32) bs

-- `fnv.New32a`, `Write` and `Sum32`.
unfoldable pub fnv_32a : Text → ℕ
unfolding fnv_from
fnv_32a bs = fnv_from 2_166_136_261 bs

-- ":" and ":variant:"
abbrev pub colon : Text
colon = b':' ∷ []

abbrev pub colon_variant : Text
colon_variant = b':' ∷ b'v' ∷ b'a' ∷ b'r' ∷ b'i' ∷ b'a' ∷ b'n' ∷ b't' ∷ b':' ∷ []

unfoldable pub in_percentage : Text → Text → ℤ → Bool
unfolding fnv_32a
in_percentage flag_key user_id percentage =
    if leb_ℤ percentage (pos 0)
    then false
    else (if leb_ℤ (pos 100) percentage
        then true
        else ltb_ℤ (pos (fnv_32a (flag_key ++ (colon ++ user_id)) % 100)) percentage)

pub record Variant (V : Type 0) : Type 0 where
  pub key : Text
  pub value : V
  pub weight : ℤ

-- `weight <= 0` counts as 1.
abbrev pub weight_of : {V : Type 0} → Variant V → ℕ
weight_of v = if leb_ℤ v.weight (pos 0) then 1 else pos_part v.weight

unfoldable pub total_weight : {V : Type 0} → List (Variant V) → ℕ
total_weight [] = 0
total_weight (v ∷ vs) = weight_of v + total_weight vs

-- The loop that adds the weights up; none where it ends without a choice.
unfoldable pub pick : {V : Type 0} → ℕ → ℕ → List (Variant V) → Option (Variant V)
pick hash cumulative [] = none
pick hash cumulative (v ∷ vs) =
    let rest = pick hash (cumulative + weight_of v) vs in
    if ltb hash (cumulative + weight_of v) then some v else rest

-- What `selectVariant` returns: a variant, or "" and nil, or a panic: a total weight that is a
-- multiple of 2^32 is 0 as a `uint32`, and the code divides by it.
pub data Selection (V : Type 0) : Type 0 where
  selected : Variant V → Selection V
  nothing panics : Selection V

-- `flag.Variants[0]`
abbrev pub first_of : {V : Type 0} → List (Variant V) → Selection V
first_of [] = panics
first_of (v ∷ vs) = selected v

unfoldable pub select_variant : {V : Type 0} → Text → List (Variant V) → Text → Selection V
unfolding fnv_32a total_weight pick
select_variant flag_key variants user_id =
    let total = total_weight variants in
    let hash = fnv_32a (flag_key ++ (colon_variant ++ user_id)) in
    if eqb total 0
    then nothing
    else (if eqb (total % 2 ^ 32) 0
        then panics
        else elim (pick (hash % (total % 2 ^ 32)) 0 variants) [
          | none ↦ first_of variants
          | some chosen ↦ selected chosen
        ])
