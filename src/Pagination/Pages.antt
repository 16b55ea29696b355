-- ===== src/Pagination/Pages.antt =====
-- The pages of a list of `total` items: each item is on exactly one page.
use native.Mathlib.Nat.{le-div_iff_mul-le, div-lt_iff_lt-mul}
use waffle.Base.{
  ℕ, suc, ◌+◌, ◌-◌, ◌*◌, ◌/◌, ◌≤◌, ◌<◌, ◌≡◌, refl, ◌↔◌, true, false, pos, ◌+ℤ◌, ◌-ℤ◌, ◌*ℤ◌, quot,
  int_64, int_64-small, ap, ◌≤ℤ◌, ◌<ℤ◌, ltb_ℤ, arith, int_laws,
}
use waffle.Pagination.{Page, offset, limit, has_next, has_prev, next, prev, set_total, new_page}

-- The largest int.
abbrev pub max_int : ℕ
max_int = 0x7fff_ffff_ffff_ffff

-- Page `n` of `total` items, `per` to a page.
abbrev pub page_of : ℕ → ℕ → ℕ → Page
page_of total per n = set_total (pos total) (new_page (pos n) (pos per))

page_of-fields :
    (total per n : ℕ)
    → 0 < per
    → per ≤ 100
    → ((page_of total per (suc n)).page ≡ pos (suc n)) × ((page_of total per n).per_page ≡ pos per)
unfolding set_total new_page
page_of-fields total per n h h' = ground arith

first_item : (n per : ℕ) → (pos (suc n) -ℤ pos 1) *ℤ pos per ≡ pos (n * per)
unfolding ◌-ℤ◌ ◌*ℤ◌
first_item n per = let e : suc n - 1 ≡ n = omega arith in ground (arith, ap (λ (k : ℕ). k * per) e)

offset-page_of :
    (total per n : ℕ)
    → 0 < per
    → per ≤ 100
    → n * per < max_int
    → offset (page_of total per (suc n)) ≡ pos (n * per)
unfolding offset
offset-page_of total per n h h' l =
    let (number, _) = page_of-fields total per n h h' in
    let (_, size) = page_of-fields total per (suc n) h h' in
    let first : ltb_ℤ (pos (suc n)) (pos 1) ≡ false = ground arith in
    rw (offset, number) (rw (first, size, first_item n per) (int_64-small (n * per) (omega arith)))

limit-page_of : (total per n : ℕ) → 0 < per → per ≤ 100 → limit (page_of total per n) ≡ pos per
unfolding limit set_total new_page
limit-page_of total per n h h' = ground arith

no_overflow :
    (total per : ℕ)
    → total + per < max_int
    → 0 < per
    → int_64 (int_64 (pos total +ℤ pos per) -ℤ pos 1) ≡ pos (total + per - 1)
unfolding ◌+ℤ◌ ◌-ℤ◌
no_overflow total per l h =
    let small = int_64-small (total + per) (omega arith) in
    let smaller = int_64-small (total + per - 1) (omega arith) in
    let sum : pos total +ℤ pos per ≡ pos (total + per) = ground arith in
    let less : pos (total + per) -ℤ pos 1 ≡ pos (total + per - 1) = ground arith in
    rw (sum, small, less) smaller

new_page-size : (per n : ℕ) → 0 < per → per ≤ 100 → (new_page (pos n) (pos per)).per_page ≡ pos per
unfolding new_page
new_page-size per n h h' = ground arith

total_pages-page_of :
    (total per n : ℕ)
    → 0 < per
    → per ≤ 100
    → total + per < max_int
    → (page_of total per n).total_pages ≡ pos ((total + per - 1) / per)
unfolding set_total
total_pages-page_of total per n h h' l =
    let size = new_page-size per n h h' in
    let positive : ltb_ℤ (pos 0) (pos per) ≡ true = ground arith in
    rw (set_total, size) (rw (positive, no_overflow total per l h) (unfold quot in refl))

-- Item `i`, counted from 0, is on the page.
abbrev pub IsOn : ℕ → Page → Type 0
IsOn i p = (offset p ≤ℤ pos i) × (pos i <ℤ offset p +ℤ limit p)

module _ (total per i : ℕ) (h : 0 < per) (h' : per ≤ 100) where
  IsOn-page_of :
      (n : ℕ)
      → n * per < max_int
      → IsOn i (page_of total per (suc n)) ↔ ((n * per ≤ i) × (i < suc n * per))
  IsOn-page_of n l =
      rw (offset-page_of total per n h h' l, limit-page_of total per (suc n) h h')
        (λ o. (omega int_laws, omega int_laws), λ o. (omega int_laws, omega int_laws))

  -- Each of `total` items is on exactly one of the `TotalPages` pages, page `i / per + 1`; the
  -- number of items a page is 1 to 100, as `New` makes it, and `total + per` is less than the
  -- largest int.
  pub IsOn-one_page :
      total + per < max_int
      → i < total
      → let n = suc (i / per) in
        IsOn i (page_of total per n)
        × (pos n ≤ℤ (page_of total per n).total_pages)
        × ((k : ℕ)
            → pos (suc k) ≤ℤ (page_of total per (suc k)).total_pages
            → IsOn i (page_of total per (suc k))
            → suc k ≡ n)
  IsOn-one_page small lt =
      let below : i / per * per ≤ i = (le-div_iff_mul-le h).0 (omega arith) in
      let above : i < suc (i / per) * per = (div-lt_iff_lt-mul h).0 (omega arith) in
      let pages : suc (i / per) ≤ (total + per - 1) / per = (le-div_iff_mul-le h).1 (omega arith) in
      (
        (IsOn-page_of (i / per) (omega arith)).1 (below, above),
        rw (total_pages-page_of total per (suc (i / per)) h h' small) (omega arith),
        λ k among o.
            let count = total_pages-page_of total per (suc k) h h' small in
            let room : suc k ≤ (total + per - 1) / per = omega (arith, rw count at among) in
            let fits : suc k * per ≤ total + per - 1 = (le-div_iff_mul-le h).0 room in
            let (b, a) = (IsOn-page_of k (omega arith)).0 o in
            let le : k ≤ i / per = (le-div_iff_mul-le h).1 b in
            let ge : i / per < suc k = (div-lt_iff_lt-mul h).1 a in omega arith,
      )

-- Where there is a next page, it exists and has the page as its previous page; where there is
-- none, `Next` gives the page itself. So for `Prev`, which stays above 0.
pub prev-next :
    (p : Page)
    → pos 1 ≤ℤ p.page
    → (has_next p ≡ true → (next p ≤ℤ p.total_pages) × (prev (record p { page = next p }) ≡ p.page))
      × (has_prev p ≡ true → pos 1 ≤ℤ prev p)
      × (has_next p ≡ false → next p ≡ p.page)
unfolding has_next has_prev next prev ◌+ℤ◌ ◌-ℤ◌
prev-next p h = ground arith
