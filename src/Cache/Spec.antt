-- ===== src/Cache/Spec.antt =====
-- The operations of memory.go but Size as one step function, and the map that never removes expired
-- entries, which specifies their replies.
use waffle.Base.{
  Bool, true, false, not, ◌||◌, Option, none, some, List, [], ◌∷◌, String, ℤ, ◌≤ℤ◌, if◌then◌else◌,
  Map, insert, unless, comparable_string, ◌==◌,
}
use waffle.Cache.{
  Error, not_found, closed_error, Result, ok, err, Outcome, returns, blocks, Bytes, Item, Memory,
  is_expired, new_item, get, exists, set, delete, clear, close, get_multi, set_multi, delete_multi,
  take_tick, remove_expired,
}

pub data Op : Type 0 where
  get_op exists_op delete_op : String → Op
  set_op : String → Bytes → ℤ → Op
  clear_op tick sweep : Op
  close_op : Bool → Op
  get_multi_op delete_multi_op : List String → Op
  set_multi_op : Map String Bytes → ℤ → Op

pub data Reply : Type 0 where
  bytes : Result Bytes → Reply
  truth : Result Bool → Reply
  outcome : Outcome → Reply
  values : Result (Map String Bytes) → Reply
  silent : Reply

abbrev pub replying : Memory × Option Error → Memory × Reply
replying (m, e) = (m, outcome (returns e))

unfoldable pub step : ℤ → Op → Memory → Memory × Reply
step now (get_op k) m = (m, bytes (get now k m))
step now (exists_op k) m = (m, truth (exists now k m))
step now (delete_op k) m = replying (delete k m)
step now (set_op k v ttl) m = replying (set now k v ttl m)
step now clear_op m = replying (clear m)
step now (close_op takes_tick) m = let (m', o) = close takes_tick m in (m', outcome o)
step now tick m = (take_tick m, silent)
step now sweep m = (remove_expired now m, silent)
step now (get_multi_op ks) m = (m, values (get_multi now ks m))
step now (delete_multi_op ks) m = replying (delete_multi ks m)
step now (set_multi_op vs ttl) m = replying (set_multi now vs ttl m)

-- A `Close` that waits for ever keeps the mutex, so that nothing comes after it.
abbrev pub before : Reply → List Reply → List Reply
before (outcome blocks) rs = outcome blocks ∷ []
before (outcome (returns e)) rs = outcome (returns e) ∷ rs
before (bytes r) rs = bytes r ∷ rs
before (truth r) rs = truth r ∷ rs
before (values r) rs = values r ∷ rs
before silent rs = silent ∷ rs

-- Operations at their times, and the replies.
unfoldable pub run : List (ℤ × Op) → Memory → List Reply
run [] m = []
run ((now, op) ∷ ops) m = let (m', r) = step now op m in before r (run ops m')

-- The specification: a function from keys to what was last stored there, whether the cache is
-- closed, and whether a tick is taken whose removal is to come.
pub record Spec : Type 0 where
  pub entries : String → Option Item
  pub is_closed : Bool
  pub is_waiting : Bool

abbrev pub live : ℤ → Option Item → Option Item
live now = unless (is_expired now)

abbrev pub update : String → Option Item → (String → Option Item) → String → Option Item
update k o entries j = if k == j then o else entries j

abbrev pub update_all : ℤ → Map String Bytes → ℤ → (String → Option Item) → String → Option Item
update_all now [] ttl entries = entries
update_all now ((k, v) ∷ vs) ttl entries =
    update_all now vs ttl (update k (some (new_item now v ttl)) entries)

abbrev pub remove_all : List String → (String → Option Item) → String → Option Item
remove_all [] entries = entries
remove_all (k ∷ ks) entries = remove_all ks (update k none entries)

abbrev pub collect_live :
    ℤ → List String → (String → Option Item) → Map String Bytes → Map String Bytes
collect_live now [] entries result = result
collect_live now (k ∷ ks) entries result =
    collect_live now ks entries
      (elim (live now (entries k)) [ none ↦ result | some it ↦ insert k it.value result ])

abbrev pub written : Spec → (String → Option Item) → Spec × Reply
written s entries =
    if s.is_closed
    then (s, outcome (returns (some closed_error)))
    else (record s { entries = entries }, outcome (returns none))

abbrev pub unless_closed {ℓ} : {A : Type ℓ} → Spec → (Error → A) → A → A
unless_closed s failing a = if s.is_closed then failing closed_error else a

unfoldable pub spec_step : ℤ → Op → Spec → Spec × Reply
spec_step now (get_op k) s = (
  s,
  bytes (
      if s.is_closed
      then err closed_error
      else elim (live now (s.entries k)) [ none ↦ err not_found | some it ↦ ok it.value ]),
)
spec_step now (exists_op k) s = (
  s,
  truth (
      if s.is_closed
      then err closed_error
      else elim (live now (s.entries k)) [ none ↦ ok false | some it ↦ ok true ]),
)
spec_step now (delete_op k) s = written s (update k none s.entries)
spec_step now (set_op k v ttl) s = written s (update k (some (new_item now v ttl)) s.entries)
spec_step now clear_op s = written s (λ k. none)
spec_step now (close_op takes_tick) s = if s.is_closed then (s, outcome (returns none)) else (
  record s { is_closed = true },
  outcome (if s.is_waiting || takes_tick then blocks else returns none),
)
spec_step now tick s = (if not s.is_closed then record s { is_waiting = true } else s, silent)
spec_step now sweep s = (if s.is_waiting then record s { is_waiting = false } else s, silent)
spec_step now (get_multi_op ks) s =
    (s, values (if s.is_closed then err closed_error else ok (collect_live now ks s.entries [])))
spec_step now (delete_multi_op ks) s = written s (remove_all ks s.entries)
spec_step now (set_multi_op vs ttl) s = written s (update_all now vs ttl s.entries)

unfoldable pub spec_run : List (ℤ × Op) → Spec → List Reply
spec_run [] s = []
spec_run ((now, op) ∷ ops) s = let (s', r) = spec_step now op s in before r (spec_run ops s')

-- Times never go back, from `t` on.
abbrev pub IsOrdered : ℤ → List (ℤ × Op) → Type 0
IsOrdered t [] = Unit
IsOrdered t ((now, op) ∷ ops) = (t ≤ℤ now) × IsOrdered now ops
