-- ===== src/Validate/Sizes.antt =====
-- pantry/validate/rules.go: the rules that compare a value with a number, a text or another field.
-- `Value` is what reflect tells of a value; floating-point numbers, the parser of the standard
-- library for them, the number of characters of a text and DeepEqual are a parameter.
pub mod Limits
use Prim.Native.String.{String}
use waffle.Base.{
  ℕ, ◌-◌, Bool, true, false, not, ◌||◌, Option, none, some, List, [], ◌∷◌, Comparable, ◌==◌,
  comparable_text, eqb_ℤ, ℤ, pos, negsuc, Text, text_eq, if◌then◌else◌, split, atoi,
}

pub record Numbers : Type 1 where
  pub Float : Type 0
  pub parse_float : Text → Option Float
  pub of_int : ℤ → Float
  pub less : Float → Float → Bool
  pub at_most : Float → Float → Bool
  pub rune_count : Text → ℕ

-- `items` is a slice, a map or an array, by its length; `other` is any other kind.
pub data Value (F : Type 0) : Type 0 where
  nil other : Value F
  text : Text → Value F
  items : ℕ → Value F
  int : ℤ → Value F
  uint : ℕ → Value F
  float : F → Value F

-- eq and ne compare the text that toString gives, unless the value is nil.
unfoldable pub rule_eq : Text → Option Text → String
unfolding text_eq
rule_eq param none = ""
rule_eq param (some s) = if not (text_eq s param) then "eq" else ""

unfoldable pub rule_ne : Text → Option Text → String
unfolding text_eq
rule_ne param none = ""
rule_ne param (some s) = if text_eq s param then "ne" else ""

-- The items that the loop has seen, and the loop.
unfoldable pub has_item : {A : Type 0} ⦃c : Comparable A⦄ → A → List A → Bool
has_item x [] = false
has_item x (y ∷ ys) = let rest = has_item x ys in if x == y then true else rest

unfoldable pub unique_from : {A : Type 0} ⦃c : Comparable A⦄ → List A → List A → String
unfolding has_item
unique_from seen [] = ""
unique_from seen (x ∷ xs) =
    let rest = unique_from (x ∷ seen) xs in if has_item x seen then "unique" else rest

unfoldable pub rule_unique : {A : Type 0} ⦃c : Comparable A⦄ → List A → String
unfolding unique_from
rule_unique xs = unique_from [] xs

module _ (n : Numbers) where
  -- toFloat, and the number that the rules on sizes take of a value.
  unfoldable pub to_float : Value n.Float → Option n.Float
  to_float nil = none
  to_float other = none
  to_float (text s) = n.parse_float s
  to_float (items k) = none
  to_float (int i) = some (n.of_int i)
  to_float (uint k) = some (n.of_int (pos k))
  to_float (float f) = some f

  unfoldable pub size_of : Value n.Float → Option n.Float
  size_of nil = none
  size_of other = none
  size_of (text s) = some (n.of_int (pos (n.rune_count s)))
  size_of (items k) = some (n.of_int (pos k))
  size_of (int i) = some (n.of_int i)
  size_of (uint k) = some (n.of_int (pos k))
  size_of (float f) = some f

  -- A comparison of two numbers, either of which may be missing: then the value passes.
  abbrev pub refuse_if :
      String → (n.Float → n.Float → Bool) → Option n.Float → Option n.Float → String
  refuse_if name refused none y = ""
  refuse_if name refused (some x) none = ""
  refuse_if name refused (some x) (some y) = if refused x y then name else ""

  unfoldable pub rule_min : Text → Value n.Float → String
  unfolding size_of
  rule_min param v = refuse_if "min" (λ x y. n.less x y) (size_of v) (n.parse_float param)

  unfoldable pub rule_max : Text → Value n.Float → String
  unfolding size_of
  rule_max param v = refuse_if "max" (λ x y. n.less y x) (size_of v) (n.parse_float param)

  unfoldable pub rule_len : Text → Value n.Float → String
  unfolding atoi
  rule_len param v = elim (atoi param) [
    | none ↦ ""
    | some length ↦ elim v [
      | text s ↦ if not (eqb_ℤ (pos (n.rune_count s)) length) then "len" else ""
      | items k ↦ if not (eqb_ℤ (pos k) length) then "len" else ""
      | _ ↦ ""
    ]
  ]

  -- The two tests of between, once the limits are parsed.
  abbrev pub in_range : Option n.Float → Option n.Float → Option n.Float → String
  in_range none max current = ""
  in_range (some min) none current = ""
  in_range (some min) (some max) none = ""
  in_range (some min) (some max) (some x) = if n.less x min || n.less max x then "between" else ""

  unfoldable pub rule_between : Text → Value n.Float → String
  unfolding size_of split
  rule_between param v = elim (split b'|' [] param) [
    | low ∷ high ∷ [] ↦ in_range (n.parse_float low) (n.parse_float high) (size_of v)
    | _ ↦ ""
  ]

  unfoldable pub rule_gt : Text → Value n.Float → String
  unfolding to_float
  rule_gt param v = refuse_if "gt" (λ x y. n.at_most x y) (to_float v) (n.parse_float param)

  unfoldable pub rule_gte : Text → Value n.Float → String
  unfolding to_float
  rule_gte param v = refuse_if "gte" (λ x y. n.less x y) (to_float v) (n.parse_float param)

  unfoldable pub rule_lt : Text → Value n.Float → String
  unfolding to_float
  rule_lt param v = refuse_if "lt" (λ x y. n.at_most y x) (to_float v) (n.parse_float param)

  unfoldable pub rule_lte : Text → Value n.Float → String
  unfolding to_float
  rule_lte param v = refuse_if "lte" (λ x y. n.less y x) (to_float v) (n.parse_float param)

  -- The rules on another field, which is none where the struct has no such field.
  abbrev pub other_float : Option (Value n.Float) → Option n.Float
  other_float none = none
  other_float (some v) = to_float v

  unfoldable pub rule_gt_field : Option (Value n.Float) → Value n.Float → String
  unfolding to_float
  rule_gt_field field v =
      refuse_if "gtfield" (λ x y. n.at_most x y) (to_float v) (other_float field)

  unfoldable pub rule_gte_field : Option (Value n.Float) → Value n.Float → String
  unfolding to_float
  rule_gte_field field v = refuse_if "gtefield" (λ x y. n.less x y) (to_float v) (other_float field)

  unfoldable pub rule_lt_field : Option (Value n.Float) → Value n.Float → String
  unfolding to_float
  rule_lt_field field v =
      refuse_if "ltfield" (λ x y. n.at_most y x) (to_float v) (other_float field)

  unfoldable pub rule_lte_field : Option (Value n.Float) → Value n.Float → String
  unfolding to_float
  rule_lte_field field v = refuse_if "ltefield" (λ x y. n.less y x) (to_float v) (other_float field)

  -- A number between -limit and limit; nil passes and any other value that is no number does not.
  abbrev pub within : String → ℕ → Value n.Float → String
  within name limit nil = ""
  within name limit v = elim (to_float v) [
    | none ↦ name
    | some x ↦
        if n.less x (n.of_int (negsuc (limit - 1))) || n.less (n.of_int (pos limit)) x
        then name
        else ""
  ]

  unfoldable pub rule_latitude : Value n.Float → String
  rule_latitude v = within "latitude" 90 v

  unfoldable pub rule_longitude : Value n.Float → String
  rule_longitude v = within "longitude" 180 v
