-- ===== src/Feature/Values.antt =====
-- The comparisons of feature.go on values of type `any`. `none` is a panic: Go refuses to compare
-- two slices of one type with `==`. Floating point enters as an interface.
pub mod Order
use waffle.Base.{
  ℕ, zero, suc, ◌+◌, Bool, true, false, not, ◌&&◌, ◌||◌, Option, none, some, List, [], ◌∷◌, ℤ, pos,
  negsuc, eqb, leb, eqb_ℤ, ltb_ℤ, leb_ℤ, if◌then◌else◌, ◌==◌, Text, String, comparable_text,
  comparable_string, has_prefix, length,
}
use mathlib.Core.Option

pub record Floats : Type 1 where
  pub Float : Type 0
  pub of_int : ℤ → Float
  pub is_equal : Float → Float → Bool
  pub is_less : Float → Float → Bool

-- The types that the code asks for; `other` is a value of another comparable type, by a number.
mutual
  pub data Any (floats : Floats) : Type 0 where
    nil : Any floats
    text : Text → Any floats
    int : ℤ → Any floats
    int32 : ℤ → Any floats
    int64 : ℤ → Any floats
    float32 : floats.Float → Any floats
    float64 : floats.Float → Any floats
    texts : List Text → Any floats
    anys : Anys floats → Any floats
    other : ℕ → Any floats

  pub data Anys (floats : Floats) : Type 0 where
    no_more : Anys floats
    more : Any floats → Anys floats → Anys floats

abbrev pub contains_item : Text → List Text → Bool
contains_item s [] = false
contains_item s (item ∷ items) = item == s || contains_item s items

-- `findSubstring`: none is -1.
unfoldable pub find_substring : Text → Text → Option ℕ
unfolding has_prefix
find_substring [] sub = if has_prefix [] sub then some 0 else none
find_substring (c ∷ s) sub =
    let rest = Option.map suc (find_substring s sub) in
    if has_prefix (c ∷ s) sub then some 0 else rest

abbrev pub is_some : {A : Type 0} → Option A → Bool
is_some none = false
is_some (some a) = true

unfoldable pub contains_string : Text → Text → Bool
unfolding find_substring
contains_string s sub = leb (length sub) (length s) && is_some (find_substring s sub)

module _ {floats : Floats} where
  unfoldable pub to_float : Any floats → floats.Float
  to_float (int n) = floats.of_int n
  to_float (int32 n) = floats.of_int n
  to_float (int64 n) = floats.of_int n
  to_float (float32 x) = x
  to_float (float64 x) = x
  to_float _ = floats.of_int (pos 0)

  unfoldable pub is_zero : Any floats → Bool
  unfolding to_float
  is_zero a = floats.is_equal (to_float a) (floats.of_int (pos 0))

  -- `a == b` on interfaces.
  unfoldable pub same_value : Any floats → Any floats → Option Bool
  same_value nil nil = some true
  same_value (text s) (text t) = some (s == t)
  same_value (int m) (int n) = some (eqb_ℤ m n)
  same_value (int32 m) (int32 n) = some (eqb_ℤ m n)
  same_value (int64 m) (int64 n) = some (eqb_ℤ m n)
  same_value (float32 x) (float32 y) = some (floats.is_equal x y)
  same_value (float64 x) (float64 y) = some (floats.is_equal x y)
  same_value (texts ss) (texts ts) = none
  same_value (anys xs) (anys ys) = none
  same_value (other m) (other n) = some (eqb m n)
  same_value _ _ = some false

  unfoldable pub compare_numbers : Any floats → Any floats → Option Bool
  unfolding is_zero to_float same_value
  compare_numbers a b =
      if not (is_zero a) || not (is_zero b)
      then some (floats.is_equal (to_float a) (to_float b))
      else same_value a b

  unfoldable pub compare_equal : Any floats → Any floats → Option Bool
  unfolding compare_numbers
  compare_equal (text s) (text t) = some (s == t)
  compare_equal a b = compare_numbers a b

  -- The loop over `[]any`.
  unfoldable pub any_equal : Any floats → Anys floats → Option Bool
  unfolding compare_equal
  any_equal a no_more = some false
  any_equal a (more item items) = elim (compare_equal a item) [
    | none ↦ none
    | some true ↦ some true
    | some false ↦ any_equal a items
  ]

  unfoldable pub compare_in : Any floats → Any floats → Option Bool
  unfolding any_equal
  compare_in (text s) (texts items) = some (contains_item s items)
  compare_in actual (anys items) = any_equal actual items
  compare_in actual list = some false

  unfoldable pub compare_contains : Any floats → Any floats → Bool
  unfolding contains_string
  compare_contains (text s) (text sub) =
      not (eqb (length s) 0) && not (eqb (length sub) 0) && contains_string s sub
  compare_contains (texts items) (text s) = contains_item s items
  compare_contains actual sub = false

  unfoldable pub compare_numeric : Any floats → Any floats → ℤ
  unfolding to_float
  compare_numeric a b =
      if floats.is_less (to_float a) (to_float b)
      then negsuc 0
      else (if floats.is_less (to_float b) (to_float a) then pos 1 else pos 0)

  unfoldable pub match_operator : String → Any floats → Any floats → Option Bool
  unfolding compare_equal compare_in compare_contains compare_numeric
  match_operator op actual expected =
      let order = compare_numeric actual expected in
      if op == "eq" || op == "==" || op == ""
      then compare_equal actual expected
      else (if op == "neq" || op == "!="
          then Option.map not (compare_equal actual expected)
          else (if op == "in"
              then compare_in actual expected
              else (if op == "nin" || op == "not_in"
                  then Option.map not (compare_in actual expected)
                  else (if op == "contains"
                      then some (compare_contains actual expected)
                      else (if op == "gt" || op == ">"
                          then some (ltb_ℤ (pos 0) order)
                          else (if op == "gte" || op == ">="
                              then some (leb_ℤ (pos 0) order)
                              else (if op == "lt" || op == "<"
                                  then some (ltb_ℤ order (pos 0))
                                  else (if op == "lte" || op == "<="
                                      then some (leb_ℤ order (pos 0))
                                      else some false))))))))
