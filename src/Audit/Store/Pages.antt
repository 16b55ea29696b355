-- ===== src/Audit/Store/Pages.antt =====
-- pantry/audit/store.go: the pages of a query.
use waffle.Base.{
  ℕ, zero, suc, ◌+◌, ◌-◌, ◌≤◌, ◌<◌, ◌≡◌, refl, ap, sym, ◌∙◌, Bool, true, false, Bool-cases, inl,
  inr, Option, none, some, List, [], ◌∷◌, ◌++◌, ℤ, ltb, leb, pos, ltb_ℤ, ◌+ℤ◌, length, take_first,
  skip_first, take_first-all, arith, if◌then◌else◌,
}
use waffle.Audit.Events.{Event, Query, event_less, order_of}
use waffle.Audit.Store.{MemoryStore, filter_events, start_of, end_of, slice, page_of, query}
use waffle.Audit.Store.Recent.{length-skip_first, skip_first-nil}

skip_first-all : (n : ℕ) (xs : List Event) → length xs ≤ n → skip_first n xs ≡ []
skip_first-all zero [] h = refl
skip_first-all zero (x ∷ xs) h = absurd (omega arith)
skip_first-all (suc n) [] h = refl
skip_first-all (suc n) (x ∷ xs) h = skip_first-all n xs (omega arith)

abbrev limit_of_64 : ℕ
limit_of_64 = 0x8000_0000_0000_0000

start_of_lem :
    (q : Query) (a total : ℕ) → q.offset ≡ pos a → ltb total a ≡ false → start_of q total ≡ pos a
unfolding start_of
start_of_lem q a total e h = ground arith

end_of_lem :
    (q : Query) (a l total : ℕ)
    → q.offset ≡ pos a
    → q.limit ≡ pos (suc l)
    → total + suc l < limit_of_64
    → (ltb total a ≡ false)
    → end_of q total ≡ pos (if ltb total (a + suc l) then total else a + suc l)
unfolding end_of start_of ◌+ℤ◌
end_of_lem q a l total e e' small inside = rw (e, e') (ground arith)

-- A page that starts inside the list.
slice-inside :
    (a l : ℕ) (es : List Event)
    → a ≤ length es
    → slice (pos a) (pos (if ltb (length es) (a + l) then length es else a + l)) es
      ≡ some (take_first l (skip_first a es))
slice-inside a l es h = elim (Bool-cases (ltb (length es) (a + l))) [
  | inl past ↦
      let inside : leb a (length es) ≡ true = ground arith in
      let end : leb (length es) (length es) ≡ true = ground arith in
      rw (past, inside, end)
        (ap some (
          take_first-all (length es - a) (skip_first a es) (omega (arith, length-skip_first a es))
          ∙ sym (take_first-all l (skip_first a es) (ground (arith, length-skip_first a es)))))
  | inr whole ↦
      let inside : leb a (a + l) ≡ true = ground arith in
      let end : leb (a + l) (length es) ≡ true = ground arith in
      let size : (a + l) - a ≡ l = omega arith in rw (whole, inside, end, size) refl
]

take-skip : (l : ℕ) (es : List Event) → take_first l es ++ skip_first l es ≡ es
take-skip zero es = refl
take-skip (suc l) [] = refl
take-skip (suc l) (e ∷ es) = ap (λ r. e ∷ r) (take-skip l es)

skip-skip :
    (a l b : ℕ) (es : List Event) → b ≡ a + l → skip_first b es ≡ skip_first l (skip_first a es)
skip-skip zero l b es h = ap (λ n. skip_first n es) (omega arith)
skip-skip (suc a) l zero es h = absurd (omega arith)
skip-skip (suc a) l (suc b) [] h = sym (skip_first-nil l)
skip-skip (suc a) l (suc b) (e ∷ es) h = skip-skip a l b es (omega arith)

filter_events-page :
    (q : Query) (a l : ℤ) (es : List Event)
    → filter_events (record q { offset = a; limit = l }) es ≡ filter_events q es
unfolding filter_events
filter_events-page q a l [] = refl
filter_events-page q a l (e ∷ es) = rw (filter_events-page q a l es) refl

page_of_lem :
    (q : Query) (a l : ℕ) (es : List Event)
    → q.offset ≡ pos a
    → q.limit ≡ pos (suc l)
    → a ≤ length es
    → length es + suc l < limit_of_64
    → page_of q es
      ≡ some (record {
        events = take_first (suc l) (skip_first a es);
        total = length es;
        has_more = ltb (a + suc l) (length es);
      })
unfolding page_of
page_of_lem q a l es e e' h small =
    let inside : ltb (length es) a ≡ false = ground arith in
    let start : start_of q (length es) ≡ pos a = start_of_lem q a (length es) e inside in
    let more : ltb_ℤ (pos (if ltb (length es) (a + suc l) then length es else a + suc l))
          (pos (length es))
        ≡ ltb (a + suc l) (length es) =
      ground arith in
    let end = end_of_lem q a l (length es) e e' small inside in
    rw (page_of, end, start, slice-inside a (suc l) es h, end, more) refl

module _ (sort : (Event → Event → Bool) → List Event → List Event) where
  -- What the events of the query are, in order.
  abbrev pub in_order : Query → MemoryStore → List Event
  in_order q s = sort (event_less (order_of q.order_by) q.order_desc) (filter_events q s.events)

  -- The pages of a query from one offset on, up to a page that says that there is no more; none
  -- if there are more pages than the first number, or a query panics.
  unfoldable pub walk : ℕ → ℕ → ℕ → Query → MemoryStore → Option (List Event)
  walk zero limit a q s = none
  walk (suc n) limit a q s =
      let rest = walk n limit (a + limit) q s in
      elim (query sort (record q { offset = pos a; limit = pos limit }) s) [
        | none ↦ none
        | some page ↦
            if page.has_more
            then elim rest [ none ↦ none | some others ↦ some (page.events ++ others) ]
            else some page.events
      ]

  query-page :
      (q : Query) (s : MemoryStore) (a l : ℕ)
      → a ≤ length (in_order q s)
      → length (in_order q s) + suc l < limit_of_64
      → query sort (record q { offset = pos a; limit = pos (suc l) }) s
        ≡ some (record {
          events = take_first (suc l) (skip_first a (in_order q s));
          total = length (in_order q s);
          has_more = ltb (a + suc l) (length (in_order q s));
        })
  unfolding query
  query-page q s a l h small = rw (filter_events-page q (pos a) (pos (suc l)) s.events) (
      page_of_lem (record q { offset = pos a; limit = pos (suc l) }) a l (in_order q s) refl refl h
        small)

  last_page :
      (n a l : ℕ) (q : Query) (s : MemoryStore)
      → a ≤ length (in_order q s)
      → length (in_order q s) + suc l < limit_of_64
      → ltb (a + suc l) (length (in_order q s)) ≡ false
      → walk (suc n) (suc l) a q s ≡ some (skip_first a (in_order q s))
  unfolding walk
  last_page n a l q s h small last =
      rw (walk, query-page q s a l h small, last)
        (ap some (
          take_first-all (suc l) (skip_first a (in_order q s))
            (ground (arith, length-skip_first a (in_order q s)))))

  walk_from :
      (n a l : ℕ) (q : Query) (s : MemoryStore)
      → a ≤ length (in_order q s)
      → length (in_order q s) - a ≤ n
      → length (in_order q s) + suc l < limit_of_64
      → walk (suc n) (suc l) a q s ≡ some (skip_first a (in_order q s))
  unfolding walk
  walk_from zero a l q s h fuel small =
      let last : ltb (a + suc l) (length (in_order q s)) ≡ false = ground arith in
      last_page zero a l q s h small last
  walk_from (suc n) a l q s h fuel small =
      elim (Bool-cases (ltb (a + suc l) (length (in_order q s)))) [
        | inr last ↦ last_page (suc n) a l q s h small last
        | inl more ↦
            rw
              (
                walk,
                query-page q s a l h small,
                more,
                walk_from n (a + suc l) l q s (ground arith) (ground arith) small,
              )
              (ap some (
                ap (λ r. take_first (suc l) (skip_first a (in_order q s)) ++ r)
                  (skip-skip a (suc l) (a + suc l) (in_order q s) refl)
                ∙ take-skip (suc l) (skip_first a (in_order q s))))
      ]

  -- As many queries as there are events, and one more, give all events of a query in order, each
  -- once: a page ends where the next one starts, and the last one says that there is no more. The
  -- limit is positive, and its sum with the number of events is an int.
  pub walk_lem :
      (l : ℕ) (q : Query) (s : MemoryStore)
      → length (in_order q s) + suc l < limit_of_64
      → walk (suc (length (in_order q s))) (suc l) 0 q s ≡ some (in_order q s)
  walk_lem l q s small = walk_from (length (in_order q s)) 0 l q s (omega arith) (omega arith) small
