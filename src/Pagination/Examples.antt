-- ===== src/Pagination/Examples.antt =====
-- 45 items, 20 to a page.
use waffle.Pagination.Keyset.Windows.{
  select_page, page_after, page_before, builder, first_rows, select_page-window,
}
use waffle.Base.{
  List, ◌++◌, [], ◌∷◌, true, false, reverse_onto, ℕ, suc, ◌≡◌, refl, none, some, pos, ◌+ℤ◌, ◌-ℤ◌,
  ◌*ℤ◌, quot, int_64, ◌≤ℤ◌, arith,
}
use waffle.Pagination.{
  offset, has_next, has_prev, next, prev, set_total, new_page, from_request_with_defaults,
}
use waffle.Pagination.Pages.{page_of, IsOn, IsOn-one_page}

program : Unit {0}
unfolding offset set_total new_page has_next has_prev next prev from_request_with_defaults ◌+ℤ◌ ◌-ℤ◌
    ◌*ℤ◌ quot int_64
program = tt

third : (page_of 45 20 3).total_pages ≡ pos 3
unfolding program
third = refl

third_offset : offset (page_of 45 20 3) ≡ pos 40
unfolding program
third_offset = refl

-- A bound of 500 items is cut to 100, a bound of 0 becomes 20.
bounds :
    ((from_request_with_defaults none (some (pos 300)) none (pos 10) (pos 500)).per_page ≡ pos 100)
    × ((from_request_with_defaults none none none (pos 10) (pos 0)).per_page ≡ pos 20)
unfolding program
bounds = (refl, refl)

IsOn-one_page_example :
    IsOn 44 (page_of 45 20 3)
    × (pos 3 ≤ℤ (page_of 45 20 3).total_pages)
    × ((k : ℕ)
        → pos (suc k) ≤ℤ (page_of 45 20 (suc k)).total_pages
        → IsOn 44 (page_of 45 20 (suc k))
        → suc k ≡ 3)
IsOn-one_page_example =
    IsOn-one_page 45 20 44 (omega arith) (omega arith) (omega arith) (omega arith)

abbrev front : List ℕ
front = 1 ∷ 2 ∷ 3 ∷ []

abbrev back : List ℕ
back = 5 ∷ 6 ∷ 7 ∷ []

select_page-window_example :
    (select_page (builder false) (page_after 2 4 true) (front ++ (4 ∷ back)) ≡ first_rows 2 back)
    × (select_page (builder false) (page_before 2 4 true) (front ++ (4 ∷ back))
        ≡ first_rows 2 front)
    × (select_page (builder true) (page_after 2 4 true) (front ++ (4 ∷ back))
        ≡ first_rows 2 (reverse_onto front []))
    × (select_page (builder true) (page_before 2 4 true) (front ++ (4 ∷ back))
        ≡ first_rows 2 (reverse_onto back []))
select_page-window_example =
    select_page-window 2 4 true front back (omega arith, (omega arith, (omega arith, tt)))
      (omega arith, (omega arith, (omega arith, tt)))
