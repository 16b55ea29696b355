-- ===== src/Audit/Store.antt =====
-- pantry/audit/store.go: MemoryStore. `sort` stands for sort.Slice, which is not stable; the size
-- of an int is 64 bits.
pub mod Pages
pub mod Recent
use waffle.Base.{
  ℕ, suc, ◌+◌, ◌-◌, Bool, true, false, not, ◌&&◌, Option, none, some, List, [], ◌∷◌, ◌++◌, ℤ, pos,
  negsuc, pos_part, ◌+ℤ◌, ◌-ℤ◌, ltb_ℤ, leb_ℤ, leb, length, take_first, skip_first, if◌then◌else◌,
}
use waffle.Audit.Events.{Event, Query, order_of, matches_query, event_less}

-- The events, the oldest first.
pub record MemoryStore : Type 0 where
  pub events : List Event
  pub max_len : ℕ

unfoldable pub new_memory_store : ℤ → MemoryStore
new_memory_store max_events = record {
  events = [];
  max_len = if leb_ℤ max_events (pos 0) then 10000 else pos_part max_events;
}

-- `s.events[1:]`, of a list that is at its limit and so not empty.
abbrev pub without_oldest : List Event → List Event
without_oldest [] = []
without_oldest (e ∷ es) = es

unfoldable pub store : Event → MemoryStore → MemoryStore
store e s = record s {
  events =
      (if leb s.max_len (length s.events) then without_oldest s.events else s.events) ++ e ∷ [];
}

unfoldable pub clear : MemoryStore → MemoryStore
clear s = record s { events = [] }

unfoldable pub filter_events : Query → List Event → List Event
unfolding matches_query
filter_events q [] = []
filter_events q (e ∷ es) =
    let rest = filter_events q es in if matches_query e q then e ∷ rest else rest

-- The sum of two numbers of which the second is not negative, as 64 bits keep it.
abbrev pub wrapped : ℤ → ℤ
wrapped n = if leb_ℤ (pos 0x8000_0000_0000_0000) n then n -ℤ pos 0x1_0000_0000_0000_0000 else n

-- `filtered[start:end]`; none is a panic.
abbrev pub slice : ℤ → ℤ → List Event → Option (List Event)
slice (negsuc a) end es = none
slice (pos a) (negsuc b) es = none
slice (pos a) (pos b) es =
    if leb a b && leb b (length es) then some (take_first (b - a) (skip_first a es)) else none

pub record QueryResult : Type 0 where
  pub events : List Event
  pub total : ℕ
  pub has_more : Bool

unfoldable pub start_of : Query → ℕ → ℤ
start_of q total = if ltb_ℤ (pos total) q.offset then pos total else q.offset

unfoldable pub end_of : Query → ℕ → ℤ
unfolding start_of
end_of q total =
    if ltb_ℤ (pos 0) q.limit
    then (let end = wrapped (start_of q total +ℤ q.limit) in
        if ltb_ℤ (pos total) end then pos total else end)
    else pos total

-- The page of the sorted events; none is a panic.
unfoldable pub page_of : Query → List Event → Option QueryResult
unfolding end_of
page_of q filtered =
    let total = length filtered in
    let end = end_of q total in
    elim (slice (start_of q total) end filtered) [
      | none ↦ none
      | some page ↦ some (record { events = page; total = total; has_more = ltb_ℤ end (pos total) })
    ]

module _ (sort : (Event → Event → Bool) → List Event → List Event) where
  unfoldable pub query : Query → MemoryStore → Option QueryResult
  unfolding filter_events event_less order_of page_of
  query q s =
      page_of q (sort (event_less (order_of q.order_by) q.order_desc) (filter_events q s.events))
