-- ===== src/Plural/Forms.antt =====
-- The rules that plural.go states in its comments, each form by the counts that take it.
use waffle.Base.{ℕ, suc, ◌%◌, ◌≤◌, ◌<◌, ◌≡◌, ◌≢◌, ◌↔◌, ◌⊎◌, ℤ, pos, negsuc, arith}
use waffle.Plural.{
  zero_form, one, two, few, many, other, plural_russian, plural_polish, plural_arabic,
  plural_lithuanian, plural_latvian,
}

abbrev pub abs : ℤ → ℕ
abs (pos n) = n
abs (negsuc n) = suc n

-- Russian: one, few and many by the last two digits of the count without its sign, and never
-- other.
pub plural_russian-forms :
    (n : ℤ)
    → let a = abs n in
      ((plural_russian n ≡ one) ↔ ((a % 10 ≡ 1) × (a % 100 ≢ 11)))
      × ((plural_russian n ≡ few)
          ↔ ((2 ≤ a % 10) × (a % 10 ≤ 4) × ((a % 100 < 12) ⊎ (14 < a % 100))))
      × ((plural_russian n ≡ many)
          ↔ ((a % 10 ≡ 0) ⊎ (5 ≤ a % 10) ⊎ ((11 ≤ a % 100) × (a % 100 ≤ 14))))
      × (plural_russian n ≢ other)
unfolding plural_russian
plural_russian-forms n = ground arith

-- Polish: for a count that is not negative the rules of the comment, and never other. For a
-- negative count, whose remainders are not positive, only the multiples of ten take a form of
-- their own: they are many, and all else is other.
pub plural_polish-forms :
    (n : ℕ)
    → ((plural_polish (pos n) ≡ one) ↔ (n ≡ 1))
      × ((plural_polish (pos n) ≡ few)
          ↔ ((2 ≤ n % 10) × (n % 10 ≤ 4) × ((n % 100 < 12) ⊎ (14 < n % 100))))
      × (plural_polish (pos n) ≢ other)
      × ((plural_polish (negsuc n) ≡ many) ↔ (suc n % 10 ≡ 0))
      × ((plural_polish (negsuc n) ≡ other) ↔ (suc n % 10 ≢ 0))
unfolding plural_polish
plural_polish-forms n = ground arith

-- Arabic, for a count that is not negative: all six forms, each by the rule of the comment.
pub plural_arabic-forms :
    (n : ℕ)
    → ((plural_arabic (pos n) ≡ zero_form) ↔ (n ≡ 0))
      × ((plural_arabic (pos n) ≡ one) ↔ (n ≡ 1))
      × ((plural_arabic (pos n) ≡ two) ↔ (n ≡ 2))
      × ((plural_arabic (pos n) ≡ few) ↔ ((3 ≤ n % 100) × (n % 100 ≤ 10)))
      × ((plural_arabic (pos n) ≡ many) ↔ (11 ≤ n % 100))
      × ((plural_arabic (pos n) ≡ other) ↔ ((100 ≤ n) × (n % 100 ≤ 2)))
unfolding plural_arabic
plural_arabic-forms n =
    (ground arith, ground arith, ground arith, ground arith, ground arith, ground arith)

-- Lithuanian and Latvian, for a count that is not negative: the counts of one and few, and of
-- zero and one.
pub plural_baltic-forms :
    (n : ℕ)
    → ((plural_lithuanian (pos n) ≡ one) ↔ ((n % 10 ≡ 1) × (n % 100 ≢ 11)))
      × ((plural_lithuanian (pos n) ≡ few) ↔ ((2 ≤ n % 10) × ((n % 100 < 11) ⊎ (19 < n % 100))))
      × ((plural_latvian (pos n) ≡ zero_form) ↔ (n ≡ 0))
      × ((plural_latvian (pos n) ≡ one) ↔ ((n % 10 ≡ 1) × (n % 100 ≢ 11)))
unfolding plural_lithuanian plural_latvian
plural_baltic-forms n = (ground arith, ground arith, ground arith, ground arith)
