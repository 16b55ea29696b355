-- ===== src/Pagination/Bounds.antt =====
-- Every page that a constructor or a request gives has a positive number and 1 to 100 items.
use waffle.Base.{◌≡◌, Option, ℤ, pos, ◌≤ℤ◌, ◌<ℤ◌, arith}
use waffle.Pagination.{Page, new_page, from_request_with_defaults, max_per_page}

pub record IsValid (p : Page) : Type 0 where
  pub numbered : pos 1 ≤ℤ p.page
  pub some_items : pos 1 ≤ℤ p.per_page
  pub at_most : p.per_page ≤ℤ max_per_page

-- `New` gives a valid page for any numbers, and keeps those that are in range.
pub new_page-IsValid :
    (page per_page : ℤ)
    → IsValid (new_page page per_page)
      × (pos 1 ≤ℤ page → (new_page page per_page).page ≡ page)
      × (pos 1 ≤ℤ per_page
          → per_page ≤ℤ max_per_page
          → (new_page page per_page).per_page ≡ per_page)
unfolding new_page
new_page-IsValid page per_page = (ground arith, ground arith, ground arith)

-- `FromRequestWithDefaults` gives a valid page for any request and any defaults, so never more
-- than 100 items, however large `maxPerPage` is. Where both defaults are positive, `maxPerPage`
-- is a bound; where `maxPerPage` is not positive, the page has 20 items.
pub from_request_with_defaults-IsValid :
    (page per_page limit_param : Option ℤ) (default_per max_per : ℤ)
    → let p = from_request_with_defaults page per_page limit_param default_per max_per in
      IsValid p
      × (pos 1 ≤ℤ default_per → pos 1 ≤ℤ max_per → p.per_page ≤ℤ max_per)
      × (max_per <ℤ pos 1 → p.per_page ≡ pos 20)
unfolding from_request_with_defaults
from_request_with_defaults-IsValid page per_page limit_param default_per max_per =
    (ground arith, ground arith, ground arith)
