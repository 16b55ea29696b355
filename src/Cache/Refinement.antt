-- ===== src/Cache/Refinement.antt =====
-- The cache against a map that never removes expired entries: no reply shows the difference.
use waffle.Base.{
  ◌≡◌, refl, Bool, true, false, not, ◌&&◌, ◌||◌, Option, none, some, List, [], ◌∷◌, String, ℤ, pos,
  ltb_ℤ, ◌≤ℤ◌, if◌then◌else◌, Map, lookup, insert, erase, IsMap, insert-IsMap, erase-IsMap,
  delete_if-IsMap, comparable_string, arith,
}
use mathlib.Core.Path.{ap₂}
use waffle.Cache.{
  Error, Outcome, closed_error, returns, blocks, Item, Memory, is_expired, new_item,
  new_memory_with_config, get, exists, set, delete, clear, close, get_multi, store_all, set_multi,
  erase_all, delete_multi, take_tick, remove_expired,
}
use waffle.Cache.Spec.{
  Op, Reply, outcome, get_op, exists_op, delete_op, set_op, clear_op, close_op, tick, sweep,
  get_multi_op, delete_multi_op, set_multi_op, step, run, Spec, update, update_all, remove_all,
  spec_step, written, before, spec_run, IsOrdered,
}
use waffle.Cache.Agreement.{
  Agree, Agree-insert, Agree-erase, Agree-later, Agree-remove_expired, Agree-erase_all,
  Agree-store_all, erase_all-IsMap, store_all-IsMap, collect-live,
}

if-related :
    {A B : Type 0} (R : A → B → Type 0) {a b : A} {c d : B} (x y : Bool)
    → x ≡ y
    → R a c
    → R b d
    → R (if x then a else b) (if y then c else d)
if-related R true true e r r' = r
if-related R false false e r r' = r'
if-related R true false e r r' = cc
if-related R false true e r r' = cc

-- What decides whether `Close` returns.
closing :
    (waiting takes_tick : Bool)
    → outcome (if not waiting && not takes_tick then returns none else blocks)
      ≡ outcome (if waiting || takes_tick then blocks else returns none)
closing waiting takes_tick = ground arith

record Refines (t : ℤ) (m : Memory) (s : Spec) : Type 0 where
  distinct : IsMap m.items
  same_closed : m.closed ≡ s.is_closed
  cleaned : m.has_cleanup ≡ true
  same_waiting : m.is_waiting ≡ s.is_waiting
  agree : Agree t m.items s.entries

-- An operation at a time not before `t` gives the same reply, and states that refine again.
abbrev StepRefines : ℤ → Op → Memory → Spec → Type 0
StepRefines now op m s =
    Refines now (step now op m).0 (spec_step now op s).0
    × ((step now op m).1 ≡ (spec_step now op s).1)

module _ (now : ℤ) (m : Memory) (s : Spec) (r : Refines now m s) where
  -- A write that replaces the items by ones that agree.
  write :
      (items : Map String Item) (entries : String → Option Item)
      → IsMap items
      → Agree now items entries
      → Refines now (record m { items = items }) (record s { entries = entries })
  write items entries d a = record {
    distinct = d;
    same_closed = r.same_closed;
    cleaned = r.cleaned;
    same_waiting = r.same_waiting;
    agree = a;
  }

  get_op-refines : (k : String) → StepRefines now (get_op k) m s
  unfolding step spec_step get
  get_op-refines k = (r, ground (arith, r.same_closed, r.agree now k (omega arith)))

  exists_op-refines : (k : String) → StepRefines now (exists_op k) m s
  unfolding step spec_step exists
  exists_op-refines k = (r, ground (arith, r.same_closed, r.agree now k (omega arith)))

  get_multi_op-refines : (ks : List String) → StepRefines now (get_multi_op ks) m s
  unfolding step spec_step get_multi
  get_multi_op-refines ks =
      (r, ground (arith, r.same_closed, collect-live now ks m.items s.entries [] r.agree))

  -- So for a write that is made only if the cache is not closed.
  write-refines :
      (items : Map String Item) (entries : String → Option Item)
      → IsMap items
      → Agree now items entries
      → let c : Memory × Option Error =
          if m.closed then (m, some closed_error) else (record m { items = items }, none) in
        Refines now c.0 (written s entries).0 × (outcome (returns c.1) ≡ (written s entries).1)
  write-refines items entries d a = go m.closed s.is_closed r.same_closed
    where
      go :
          (b b' : Bool)
          → b ≡ b'
          → let c : Memory × Option Error =
              if b then (m, some closed_error) else (record m { items = items }, none) in
            let c' : Spec × Reply =
              if b'
              then (s, outcome (returns (some closed_error)))
              else (record s { entries = entries }, outcome (returns none)) in
            Refines now c.0 c'.0 × (outcome (returns c.1) ≡ c'.1)
      go true true e = (r, refl)
      go false false e = (write items entries d a, refl)
      go true false e = cc
      go false true e = cc

  -- The states agree again where only the flags changed.
  flags :
      (closed closed' waiting waiting' : Bool)
      → closed ≡ closed'
      → waiting ≡ waiting'
      → Refines now
          (record m { closed = closed; is_waiting = waiting })
          (record s { is_closed = closed'; is_waiting = waiting' })
  flags closed closed' waiting waiting' e e' = record {
    distinct = r.distinct;
    same_closed = e;
    cleaned = r.cleaned;
    same_waiting = e';
    agree = r.agree;
  }

  close_op-refines : (takes_tick : Bool) → StepRefines now (close_op takes_tick) m s
  unfolding step spec_step close
  close_op-refines takes_tick =
      if-related
        (λ (c : Memory × Outcome) (c' : Spec × Reply). Refines now c.0 c'.0 × (outcome c.1 ≡ c'.1))
        m.closed s.is_closed r.same_closed (r, refl)
        (
          flags true true m.is_waiting s.is_waiting refl r.same_waiting,
          rw (r.cleaned, r.same_waiting) (closing s.is_waiting takes_tick),
        )

  tick-refines : StepRefines now tick m s
  unfolding step spec_step take_tick
  tick-refines = (
    if-related (Refines now) (m.has_cleanup && not m.closed) (not s.is_closed)
        (rw (r.cleaned, r.same_closed) refl)
        (flags m.closed s.is_closed true true r.same_closed refl) r,
    refl,
  )

  sweep-refines : StepRefines now sweep m s
  unfolding step spec_step remove_expired
  sweep-refines = (
    if-related (Refines now) m.is_waiting s.is_waiting r.same_waiting
        (record {
          distinct = delete_if-IsMap (is_expired now) m.items r.distinct;
          same_closed = r.same_closed;
          cleaned = r.cleaned;
          same_waiting = refl;
          agree = Agree-remove_expired now m.items s.entries r.distinct r.agree;
        })
        r,
    refl,
  )

  step-refines : (op : Op) → StepRefines now op m s
  unfolding step spec_step delete set clear delete_multi set_multi
  step-refines (get_op k) = get_op-refines k
  step-refines (exists_op k) = exists_op-refines k
  step-refines (get_multi_op ks) = get_multi_op-refines ks
  step-refines (delete_op k) =
      write-refines (erase k m.items) (update k none s.entries) (erase-IsMap k m.items r.distinct)
        (Agree-erase now k m.items s.entries r.agree)
  step-refines (set_op k v ttl) =
      let it = new_item now v ttl in
      write-refines (insert k it m.items) (update k (some it) s.entries)
        (insert-IsMap k it m.items r.distinct) (Agree-insert now k it m.items s.entries r.agree)
  step-refines clear_op = write-refines [] (λ k. none) tt (λ now k le. unfold lookup in refl)
  step-refines (close_op takes_tick) = close_op-refines takes_tick
  step-refines tick = tick-refines
  step-refines sweep = sweep-refines
  step-refines (delete_multi_op ks) =
      write-refines (erase_all ks m.items) (remove_all ks s.entries)
        (erase_all-IsMap ks m.items r.distinct) (Agree-erase_all now ks m.items s.entries r.agree)
  step-refines (set_multi_op vs ttl) =
      write-refines (store_all now vs ttl m.items) (update_all now vs ttl s.entries)
        (store_all-IsMap now vs ttl m.items r.distinct)
        (Agree-store_all now vs ttl m.items s.entries r.agree)

later : (t now : ℤ) {m : Memory} {s : Spec} → t ≤ℤ now → Refines t m s → Refines now m s
later t now {m} {s} le r = record {
  distinct = r.distinct;
  same_closed = r.same_closed;
  cleaned = r.cleaned;
  same_waiting = r.same_waiting;
  agree = Agree-later t now m.items s.entries le r.agree;
}

run-refines :
    (t : ℤ) (ops : List (ℤ × Op)) (m : Memory) (s : Spec)
    → IsOrdered t ops
    → Refines t m s
    → run ops m ≡ spec_run ops s
unfolding run spec_run
run-refines t [] m s o r = refl
run-refines t ((now, op) ∷ ops) m s o r =
    let (r', same) = step-refines now m s (later t now o.0 r) op in
    ap₂ before same (run-refines now ops (step now op m).0 (spec_step now op s).0 o.1 r')

-- A new cache with a cleanup goroutine gives, to any operations but Size, and to ticks and removals
-- of its cleanup in between, at times that never go back, the replies of the map that never
-- removes an expired entry. The first Close waits for ever, which ends the run, exactly if the
-- cleanup has taken a tick, before it or while it waits, and has not made the removal.
pub new-refines :
    (cleanup_interval t : ℤ) (ops : List (ℤ × Op))
    → ltb_ℤ (pos 0) cleanup_interval ≡ true
    → IsOrdered t ops
    → run ops (new_memory_with_config cleanup_interval)
      ≡ spec_run ops (record { entries = λ k. none; is_closed = false; is_waiting = false })
unfolding new_memory_with_config lookup
new-refines cleanup_interval t ops c o =
    run-refines t ops (new_memory_with_config cleanup_interval) _ o (record {
      distinct = tt;
      same_closed = refl;
      cleaned = c;
      same_waiting = refl;
      agree = λ now k le. refl;
    })
