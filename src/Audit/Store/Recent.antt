-- ===== src/Audit/Store/Recent.antt =====
-- pantry/audit/store.go: which events MemoryStore keeps.
use mathlib.Core.List.{append_assoc}
use waffle.Base.{
  ℕ, zero, suc, ◌-◌, ◌≤◌, ◌≡◌, refl, ap, sym, ◌∙◌, true, Bool-cases, inl, inr, List, [], ◌∷◌, ◌++◌,
  ℤ, leb, length, length-append, skip_first, append-nil, arith, if◌then◌else◌,
}
use waffle.Audit.Events.{Event}
use waffle.Audit.Store.{MemoryStore, new_memory_store, without_oldest, store}

unfoldable pub store_all : List Event → MemoryStore → MemoryStore
unfolding store
store_all [] s = s
store_all (e ∷ es) s = store_all es (store e s)

-- The latest `n` elements of a list, or all.
abbrev pub latest : ℕ → List Event → List Event
latest n es = skip_first (length es - n) es

pub length-skip_first : (n : ℕ) (xs : List Event) → length (skip_first n xs) ≡ length xs - n
length-skip_first zero xs = omega arith
length-skip_first (suc n) [] = omega arith
length-skip_first (suc n) (x ∷ xs) = omega (arith, length-skip_first n xs)

without_oldest-skip_first :
    (n : ℕ) (xs : List Event) → without_oldest (skip_first n xs) ≡ skip_first (suc n) xs
without_oldest-skip_first zero [] = refl
without_oldest-skip_first zero (x ∷ xs) = refl
without_oldest-skip_first (suc n) [] = refl
without_oldest-skip_first (suc n) (x ∷ xs) = without_oldest-skip_first n xs

skip_first-append :
    (n : ℕ) (xs ys : List Event) → n ≤ length xs → skip_first n (xs ++ ys) ≡ skip_first n xs ++ ys
skip_first-append zero xs ys h = refl
skip_first-append (suc n) [] ys h = absurd (omega arith)
skip_first-append (suc n) (x ∷ xs) ys h = skip_first-append n xs ys (omega arith)

latest-append :
    (n : ℕ) (xs : List Event) (e : Event)
    → 1 ≤ n
    → latest n (xs ++ e ∷ [])
      ≡ (if leb n (length (latest n xs)) then without_oldest (latest n xs) else latest n xs)
        ++ e ∷ []
latest-append n xs e h = elim (Bool-cases (leb n (length xs))) [
  | inl full ↦
      let size : length (xs ++ e ∷ []) - n ≡ suc (length xs - n) =
        ground (arith, length-append xs (e ∷ [])) in
      let kept : leb n (length (latest n xs)) ≡ true =
        ground (arith, length-skip_first (length xs - n) xs) in
      rw (size, kept)
        (skip_first-append (suc (length xs - n)) xs (e ∷ []) (ground arith)
          ∙ ap (λ r. r ++ e ∷ []) (sym (without_oldest-skip_first (length xs - n) xs)))
  | inr room ↦
      let size : length (xs ++ e ∷ []) - n ≡ 0 = ground (arith, length-append xs (e ∷ [])) in
      let before : length xs - n ≡ 0 = ground arith in rw (size, before, room) refl
]

new_memory_store-max_len : (n : ℤ) → 1 ≤ (new_memory_store n).max_len
unfolding new_memory_store
new_memory_store-max_len n = ground arith

pub skip_first-nil : (n : ℕ) → skip_first {A = Event} n [] ≡ []
skip_first-nil zero = refl
skip_first-nil (suc n) = refl

store_all-latest :
    (seen es : List Event) (s : MemoryStore)
    → 1 ≤ s.max_len
    → s.events ≡ latest s.max_len seen
    → (store_all es s).events ≡ latest s.max_len (seen ++ es)
unfolding store_all store
store_all-latest seen [] s h e = rw (append-nil seen) e
store_all-latest seen (x ∷ es) s h e =
    let stored : (store x s).events ≡ latest s.max_len (seen ++ x ∷ []) =
      rw (latest-append s.max_len seen x h, store, e) refl in
    store_all-latest (seen ++ x ∷ []) es (store x s) h stored
    ∙ ap (latest s.max_len) (append_assoc seen (x ∷ []) es)

-- A new store that was given any events holds the latest of them, as many as its limit, or all.
pub store_all-recent :
    (n : ℤ) (es : List Event)
    → let s = new_memory_store n in (store_all es s).events ≡ latest s.max_len es
unfolding new_memory_store
store_all-recent n es =
    store_all-latest [] es (new_memory_store n) (new_memory_store-max_len n)
      (sym (skip_first-nil (0 - (new_memory_store n).max_len)))
