-- ===== src/Pagination.antt =====
-- pantry/pagination/pagination.go: pages by number. A Go `int` is an integer, and `int_64` what it
-- holds where a sum or a product can overflow.
pub mod Keyset
pub mod Bounds
pub mod Pages
mod Examples
use waffle.Base.{
  Bool, false, Option, none, some, ℤ, pos, ◌+ℤ◌, ◌-ℤ◌, ◌*ℤ◌, quot, int_64, pos_part, ltb_ℤ, leb_ℤ,
  eqb_ℤ, if◌then◌else◌,
}

pub record Page : Type 0 where
  pub page : ℤ
  pub per_page : ℤ
  pub total : ℤ
  pub total_pages : ℤ

abbrev pub default_page : ℤ
default_page = pos 1

abbrev pub default_per_page : ℤ
default_per_page = pos 20

abbrev pub max_per_page : ℤ
max_per_page = pos 100

unfoldable pub offset : Page → ℤ
unfolding int_64
offset p = if ltb_ℤ p.page (pos 1) then pos 0 else int_64 ((p.page -ℤ pos 1) *ℤ p.per_page)

unfoldable pub limit : Page → ℤ
limit p = p.per_page

unfoldable pub has_next : Page → Bool
has_next p = if eqb_ℤ p.total (pos 0) then false else ltb_ℤ p.page p.total_pages

unfoldable pub has_prev : Page → Bool
has_prev p = ltb_ℤ (pos 1) p.page

unfoldable pub next : Page → ℤ
unfolding has_next
next p = if has_next p then p.page +ℤ pos 1 else p.page

unfoldable pub prev : Page → ℤ
unfolding has_prev
prev p = if has_prev p then p.page -ℤ pos 1 else p.page

-- The divisor is positive where the division is made.
unfoldable pub set_total : ℤ → Page → Page
unfolding quot int_64
set_total total p =
    let p' = record p { total = total } in
    if ltb_ℤ (pos 0) p.per_page
    then record p' {
      total_pages = quot (int_64 (int_64 (total +ℤ p.per_page) -ℤ pos 1)) (pos_part p.per_page);
    }
    else p'

abbrev pub clamp_per_page : ℤ → ℤ
clamp_per_page per_page = if ltb_ℤ max_per_page per_page then max_per_page else per_page

unfoldable pub new_page : ℤ → ℤ → Page
new_page page per_page = record {
  page = if ltb_ℤ page (pos 1) then default_page else page;
  per_page = clamp_per_page (if ltb_ℤ per_page (pos 1) then default_per_page else per_page);
  total = pos 0;
  total_pages = pos 0;
}

-- The query parameters as `parseInt` reads them: `none` is a text that is empty, no number, or a
-- number below 1.
abbrev pub parse_int : Option ℤ → ℤ → ℤ
parse_int none def = def
parse_int (some n) def = if ltb_ℤ n (pos 1) then def else n

unfoldable pub from_request : Option ℤ → Option ℤ → Option ℤ → Page
unfolding new_page
from_request page per_page limit_param =
    let per = parse_int per_page (pos 0) in
    new_page (parse_int page default_page)
      (if eqb_ℤ per (pos 0) then parse_int limit_param default_per_page else per)

unfoldable pub from_request_with_defaults : Option ℤ → Option ℤ → Option ℤ → ℤ → ℤ → Page
unfolding new_page
from_request_with_defaults page per_page limit_param default_per max_per =
    let asked = parse_int per_page (pos 0) in
    let per = if eqb_ℤ asked (pos 0) then parse_int limit_param default_per else asked in
    let per' = if ltb_ℤ per (pos 1) then default_per else per in
    new_page (parse_int page default_page) (if ltb_ℤ max_per per' then max_per else per')
