-- ===== src/Cache.antt =====
-- pantry/cache/memory.go: the in-memory cache with expiring entries. A method takes the time that
-- `time.Now` returns to it; times and durations are integers in nanoseconds. Stored values are
-- copies in the source, so they are plain lists of bytes here.
pub mod Laws
pub mod Spec
pub mod Agreement
pub mod Refinement
mod Examples
use waffle.Base.{
  ℕ, Bool, true, false, not, ◌&&◌, Option, none, some, List, [], ◌∷◌, String, ℤ, pos, ◌+ℤ◌, ltb_ℤ,
  if◌then◌else◌, Map, lookup, insert, erase, delete_if, comparable_string, length,
}

pub data Error : Type 0 where
  not_found closed_error : Error

pub data Result (A : Type 0) : Type 0 where
  ok : A → Result A
  err : Error → Result A

-- A call that returns an error or nil, and one that waits for ever.
pub data Outcome : Type 0 where
  returns : Option Error → Outcome
  blocks : Outcome

abbrev pub Bytes : Type 0
Bytes = List ℕ

pub record Item : Type 0 where
  pub value : Bytes
  pub expires_at : ℤ
  pub no_expiry : Bool

-- `has_cleanup` says whether the constructor started the goroutine `cleanup`, which alone
-- closes `cleanCh`; `is_waiting`, that it has taken a tick and waits for the mutex.
pub record Memory : Type 0 where
  pub items : Map String Item
  pub closed : Bool
  pub has_cleanup : Bool
  pub is_waiting : Bool

unfoldable pub new_memory_with_config : ℤ → Memory
new_memory_with_config cleanup_interval = record {
  items = [];
  closed = false;
  has_cleanup = ltb_ℤ (pos 0) cleanup_interval;
  is_waiting = false;
}

-- `!it.noExpiry && now.After(it.expiresAt)`
abbrev pub is_expired : ℤ → Item → Bool
is_expired now it = not it.no_expiry && ltb_ℤ it.expires_at now

unfoldable pub get : ℤ → String → Memory → Result Bytes
get now key m = if m.closed then err closed_error else elim (lookup key m.items) [
  | none ↦ err not_found
  | some it ↦ if is_expired now it then err not_found else ok it.value
]

unfoldable pub exists : ℤ → String → Memory → Result Bool
exists now key m = if m.closed then err closed_error else elim (lookup key m.items) [
  | none ↦ ok false
  | some it ↦ if is_expired now it then ok false else ok true
]

-- The zero time stands where `expiresAt` is not set.
abbrev pub new_item : ℤ → Bytes → ℤ → Item
new_item now value ttl =
    if ltb_ℤ (pos 0) ttl
    then record { value = value; expires_at = now +ℤ ttl; no_expiry = false }
    else record { value = value; expires_at = pos 0; no_expiry = true }

unfoldable pub set : ℤ → String → Bytes → ℤ → Memory → Memory × Option Error
set now key value ttl m =
    if m.closed
    then (m, some closed_error)
    else (record m { items = insert key (new_item now value ttl) m.items }, none)

unfoldable pub delete : String → Memory → Memory × Option Error
delete key m =
    if m.closed then (m, some closed_error) else (record m { items = erase key m.items }, none)

unfoldable pub clear : Memory → Memory × Option Error
clear m = if m.closed then (m, some closed_error) else (record m { items = [] }, none)

-- `Close` keeps the mutex while it waits for `cleanCh`, which the goroutine `cleanup` closes when it
-- takes the stop; it never does while it waits for the mutex itself. `takes_tick` says that it
-- takes a tick before the stop, which `select` leaves open.
unfoldable pub close : Bool → Memory → Memory × Outcome
close takes_tick m = if m.closed then (m, returns none) else (
  record m { closed = true },
  if m.has_cleanup && not m.is_waiting && not takes_tick then returns none else blocks,
)

unfoldable pub size : Memory → ℕ
size m = length m.items

-- The loop of `GetMulti`, with its map of results.
unfoldable pub collect : ℤ → List String → Map String Item → Map String Bytes → Map String Bytes
collect now [] items result = result
collect now (key ∷ keys) items result = collect now keys items (elim (lookup key items) [
  | none ↦ result
  | some it ↦ if is_expired now it then result else insert key it.value result
])

unfoldable pub get_multi : ℤ → List String → Memory → Result (Map String Bytes)
get_multi now keys m = if m.closed then err closed_error else ok (collect now keys m.items [])

-- The loops of `SetMulti` and `DeleteMulti`.
unfoldable pub store_all : ℤ → Map String Bytes → ℤ → Map String Item → Map String Item
store_all now [] ttl items = items
store_all now ((key, value) ∷ rest) ttl items =
    store_all now rest ttl (insert key (new_item now value ttl) items)

unfoldable pub set_multi : ℤ → Map String Bytes → ℤ → Memory → Memory × Option Error
set_multi now values ttl m =
    if m.closed
    then (m, some closed_error)
    else (record m { items = store_all now values ttl m.items }, none)

unfoldable pub erase_all : List String → Map String Item → Map String Item
erase_all [] items = items
erase_all (key ∷ keys) items = erase_all keys (erase key items)

unfoldable pub delete_multi : List String → Memory → Memory × Option Error
delete_multi keys m =
    if m.closed then (m, some closed_error) else (record m { items = erase_all keys m.items }, none)

-- The goroutine `cleanup` takes a tick; it has ended once `Close` has returned.
unfoldable pub take_tick : Memory → Memory
take_tick m = if m.has_cleanup && not m.closed then record m { is_waiting = true } else m

-- It gets the mutex and goes back to its `select`.
unfoldable pub remove_expired : ℤ → Memory → Memory
remove_expired now m =
    if m.is_waiting
    then record m { items = delete_if (is_expired now) m.items; is_waiting = false }
    else m
