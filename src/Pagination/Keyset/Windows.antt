-- ===== src/Pagination/Keyset/Windows.antt =====
-- What a database gives for the clauses: those of the rows that satisfy WHERE, in the order of
-- ORDER BY, and of these the first ones up to LIMIT.
use waffle.Base.{
  ℕ, zero, suc, ◌<◌, ◌≡◌, ap, refl, Bool, true, false, Option, none, some, List, [], ◌∷◌, ◌++◌, All,
  ltb, length, reverse_onto, take_first, take_first-take_suc, take_first-all, ◌≤◌, if◌then◌else◌,
  arith, Bool-cases, inl, inr,
}
use waffle.Pagination.Keyset.{
  SqlBuilder, Order, asc, desc, order_clause, Keyset, Comparison, below, above, where_clause,
  limit_clause, process_results,
}

abbrev satisfies : Comparison → ℕ → ℕ → Bool
satisfies below bound id = ltb id bound
satisfies above bound id = ltb bound id

unfoldable pub rows_where : Option (Comparison × ℕ) → List ℕ → List ℕ
rows_where none ids = ids
rows_where (some c) [] = []
rows_where (some c) (id ∷ ids) =
    let rest = rows_where (some c) ids in if satisfies c.0 c.1 id then id ∷ rest else rest

-- Rows in increasing order, put into the order that is asked for.
abbrev pub in_order : Order → List ℕ → List ℕ
in_order asc ids = ids
in_order desc ids = reverse_onto ids []

-- `SELECT ... WHERE ... ORDER BY ... LIMIT ...` on the IDs of a table, which are given in increasing
-- order, and ProcessResults.
unfoldable pub select_page : SqlBuilder → Keyset → List ℕ → List ℕ × Bool
unfolding where_clause order_clause limit_clause process_results rows_where
select_page b k ids =
    process_results
      (take_first (limit_clause k) (in_order (order_clause b) (rows_where (where_clause b k) ids)))
      k.limit

abbrev pub Below : ℕ → List ℕ → Type 0
Below bound = All (λ id. id < bound)

abbrev pub Above : ℕ → List ℕ → Type 0
Above bound = All (λ id. bound < id)

rows_where-none : (x : ℕ) (ids : List ℕ) → Below x ids → rows_where (some (above, x)) ids ≡ []
unfolding rows_where
rows_where-none x [] h = refl
rows_where-none x (id ∷ ids) (h, hs) = ground (arith, rows_where-none x ids hs)

rows_where-all : (x : ℕ) (ids : List ℕ) → Above x ids → rows_where (some (above, x)) ids ≡ ids
unfolding rows_where
rows_where-all x [] h = refl
rows_where-all x (id ∷ ids) (h, hs) = ground (arith, rows_where-all x ids hs)

rows_above :
    (x : ℕ) (front back : List ℕ)
    → Below x front
    → Above x back
    → rows_where (some (above, x)) (front ++ (x ∷ back)) ≡ back
unfolding rows_where
rows_above x [] back h k = ground (arith, rows_where-all x back k)
rows_above x (id ∷ front) back (h, hs) k = ground (arith, rows_above x front back hs k)

rows_below_none : (x : ℕ) (ids : List ℕ) → Above x ids → rows_where (some (below, x)) ids ≡ []
unfolding rows_where
rows_below_none x [] h = refl
rows_below_none x (id ∷ ids) (h, hs) = ground (arith, rows_below_none x ids hs)

rows_below :
    (x : ℕ) (front back : List ℕ)
    → Below x front
    → Above x back
    → rows_where (some (below, x)) (front ++ (x ∷ back)) ≡ front
unfolding rows_where
rows_below x [] back h k = ground (arith, rows_below_none x back k)
rows_below x (id ∷ front) back (h, hs) k = ground (arith, rows_below x front back hs k)

length-take_first-long : (n : ℕ) (ids : List ℕ) → n ≤ length ids → length (take_first n ids) ≡ n
length-take_first-long zero ids h = refl
length-take_first-long (suc n) [] h = absurd (omega arith)
length-take_first-long (suc n) (x ∷ ids) h = ap suc (length-take_first-long n ids (omega arith))

-- A page of `limit` of the rows, and whether there are more.
page_lem :
    (limit : ℕ) (ids : List ℕ)
    → process_results (take_first (suc limit) ids) limit
      ≡ (take_first limit ids, ltb limit (length ids))
unfolding process_results
page_lem limit ids = elim (Bool-cases (ltb limit (length ids))) [
  | inl e ↦
      let size : length (take_first (suc limit) ids) ≡ suc limit =
        length-take_first-long (suc limit) ids (ground arith) in
      let more : ltb limit (suc limit) ≡ true = ground arith in
      rw (e, size, more, take_first-take_suc limit ids) refl
  | inr e ↦
      let short : take_first (suc limit) ids ≡ ids =
        take_first-all (suc limit) ids (ground arith) in
      let all : take_first limit ids ≡ ids = take_first-all limit ids (ground arith) in
      rw (short, e, all) refl
]

-- The first rows, up to the limit, and whether there are more.
abbrev pub first_rows : ℕ → List ℕ → List ℕ × Bool
first_rows limit ids = (take_first limit ids, ltb limit (length ids))

abbrev pub page_after : ℕ → ℕ → Bool → Keyset
page_after limit x asked = record {
  limit = limit;
  after = some x;
  before = none;
  descending = asked;
}

abbrev pub page_before : ℕ → ℕ → Bool → Keyset
page_before limit x asked = record {
  limit = limit;
  after = none;
  before = some x;
  descending = asked;
}

abbrev pub builder : Bool → SqlBuilder
builder descending = record { is_descending = descending }

-- With a builder in ascending order, the page after an ID is the first `limit` IDs behind it, and the
-- page before it the first `limit` IDs of all, not the last ones in front of it. In descending order,
-- with the greatest ID first, the page after an ID is the first ones below it in that order, and the
-- page before it the greatest IDs of all, not the next ones above it: OrderClause does not turn the
-- order round for a backward page. All say whether there are more. The order that the keyset was
-- asked for plays no part.
pub select_page-window :
    (limit x : ℕ) (asked : Bool) (front back : List ℕ)
    → Below x front
    → Above x back
    → let ids = front ++ (x ∷ back) in
      (select_page (builder false) (page_after limit x asked) ids ≡ first_rows limit back)
      × (select_page (builder false) (page_before limit x asked) ids ≡ first_rows limit front)
      × (select_page (builder true) (page_after limit x asked) ids
          ≡ first_rows limit (reverse_onto front []))
      × (select_page (builder true) (page_before limit x asked) ids
          ≡ first_rows limit (reverse_onto back []))
unfolding select_page where_clause order_clause limit_clause
select_page-window limit x asked front back h k = (
  rw (rows_above x front back h k) (page_lem limit back),
  rw (rows_below x front back h k) (page_lem limit front),
  rw (rows_below x front back h k) (page_lem limit (reverse_onto front [])),
  rw (rows_above x front back h k) (page_lem limit (reverse_onto back [])),
)
