-- ===== src/Feature/Values/Order.antt =====
-- The comparisons where they meet values that are no numbers.
use waffle.Base.{◌≡◌, refl, Bool, true, false, some, pos}
use waffle.Feature.Values.{
  Floats, Any, nil, text, int, int32, int64, float32, float64, texts, anys, other, to_float,
  compare_numeric, match_operator,
}

module _ {floats : Floats} where
  abbrev pub is_number : Any floats → Bool
  is_number (int n) = true
  is_number (int32 n) = true
  is_number (int64 n) = true
  is_number (float32 x) = true
  is_number (float64 x) = true
  is_number _ = false

  to_float_zero : (a : Any floats) → is_number a ≡ false → to_float a ≡ floats.of_int (pos 0)
  unfolding to_float
  to_float_zero nil h = refl
  to_float_zero (text s) h = refl
  to_float_zero (texts ss) h = refl
  to_float_zero (anys xs) h = refl
  to_float_zero (other n) h = refl
  to_float_zero (int n) h = cc
  to_float_zero (int32 n) h = cc
  to_float_zero (int64 n) h = cc
  to_float_zero (float32 x) h = cc
  to_float_zero (float64 x) h = cc

  order_zero :
      (a b : Any floats)
      → is_number a ≡ false
      → is_number b ≡ false
      → floats.is_less (floats.of_int (pos 0)) (floats.of_int (pos 0)) ≡ false
      → compare_numeric a b ≡ pos 0
  unfolding compare_numeric
  order_zero a b h k l = rw (to_float_zero a h, to_float_zero b k, l)

  -- Where neither value is a number, such as two version texts, `gte` and `lte` match, and `gt` and
  -- `lt` do not, whatever the values are.
  pub match_operator-texts :
      (a b : Any floats)
      → is_number a ≡ false
      → is_number b ≡ false
      → floats.is_less (floats.of_int (pos 0)) (floats.of_int (pos 0)) ≡ false
      → (match_operator "gte" a b ≡ some true)
        × (match_operator "lte" a b ≡ some true)
        × (match_operator "gt" a b ≡ some false)
        × (match_operator "lt" a b ≡ some false)
  unfolding match_operator
  match_operator-texts a b h k l = rw (order_zero a b h k l) (refl, refl, refl, refl)
