-- ===== src/Pagination/Keyset.antt =====
-- pantry/pagination/keyset.go. An ID is a number, and none is the empty text; of the SQL clauses,
-- what they ask of the database. A limit is not negative, and below the largest int.
pub mod Windows
use waffle.Base.{
  ℕ, suc, ◌+◌, Bool, true, false, not, ◌&&◌, ◌||◌, Option, none, some, List, [], ◌∷◌, ltb, length,
  take_first, if◌then◌else◌,
}

-- The fields of Keyset but for the column.
pub record Keyset : Type 0 where
  pub limit : ℕ
  pub after : Option ℕ
  pub before : Option ℕ
  pub descending : Bool

abbrev pub is_empty : Option ℕ → Bool
is_empty none = true
is_empty (some id) = false

unfoldable pub is_forward : Keyset → Bool
is_forward k = is_empty k.before || not (is_empty k.after)

unfoldable pub is_backward : Keyset → Bool
is_backward k = not (is_empty k.before) && is_empty k.after

unfoldable pub is_first : Keyset → Bool
is_first k = is_empty k.after && is_empty k.before

pub data Comparison : Type 0 where
  below above : Comparison

-- The fields of SQLBuilder but for the column and the placeholder.
pub record SqlBuilder : Type 0 where
  pub is_descending : Bool

-- WhereClause: none is the empty clause. The direction is the builder's, not that of the keyset.
unfoldable pub where_clause : SqlBuilder → Keyset → Option (Comparison × ℕ)
where_clause b k = elim k.after [
  | some id ↦ some ((if b.is_descending then below else above), id)
  | none ↦ elim k.before [
    | some id ↦ some ((if b.is_descending then above else below), id)
    | none ↦ none
  ]
]

pub data Order : Type 0 where
  desc asc : Order

-- OrderClause
unfoldable pub order_clause : SqlBuilder → Order
order_clause b = if b.is_descending then desc else asc

-- LimitClause asks for one row more than the page has.
unfoldable pub limit_clause : Keyset → ℕ
limit_clause k = suc k.limit

unfoldable pub process_results {ℓ} : {A : Type ℓ} → List A → ℕ → List A × Bool
process_results rows limit =
    if ltb limit (length rows) then (take_first limit rows, true) else (rows, false)
