-- ===== src/Feature/Manager.antt =====
-- Manager of feature.go over the interface Store of store.go, and MemoryStore. A flag belongs to
-- the manager that has it: callers do not write through the pointers that they share with it.
pub mod Reloads
pub mod Percentage
use waffle.Base.{
  Bool, true, false, ◌||◌, Option, none, some, List, [], ◌∷◌, ℤ, pos, ltb_ℤ, eqb, length,
  if◌then◌else◌, Text, comparable_text, Map, lookup, insert, erase, inl, inr, ◌⊎◌,
}
use waffle.Feature.Values.{Floats, Any}
use waffle.Feature.Rollout.{Selection, nothing}
use waffle.Feature.Flags.{Flag, EvalContext, empty_context, evaluate, variant_of}

pub data FlagError : Type 0 where
  flag_not_found invalid_key invalid_percentage store_failed : FlagError

-- The interface Store, less Load, which the manager does not call. `none` is a nil error.
pub record Stores (floats : Floats) : Type 1 where
  pub State : Type 0
  pub load_all : State → List (Flag floats) × Option FlagError
  pub save : Flag floats → State → State × Option FlagError
  pub delete : Text → State → State × Option FlagError

pub record Manager (floats : Floats) (State : Type 0) : Type 0 where
  pub store : Option State
  pub flags : Map Text (Flag floats)
  pub defaults : Map Text Bool

-- The loop over the loaded flags.
unfoldable pub add_all :
    {floats : Floats} → List (Flag floats) → Map Text (Flag floats) → Map Text (Flag floats)
add_all [] flags = flags
add_all (f ∷ fs) flags = add_all fs (insert f.key f flags)

-- `m.defaults[key]`
abbrev pub or_false : Option Bool → Bool
or_false none = false
or_false (some b) = b

-- A nil context is an empty one.
abbrev pub or_empty : {floats : Floats} → Option (EvalContext floats) → EvalContext floats
or_empty {floats} none = empty_context floats
or_empty (some ctx) = ctx

module _ {floats : Floats} (stores : Stores floats) where
  abbrev pub FlagManager : Type 0
  FlagManager = Manager floats stores.State

  -- The flags of a store, or none where `LoadAll` fails.
  abbrev pub loaded : stores.State → Option (List (Flag floats))
  loaded s = elim (stores.load_all s).1 [ none ↦ some (stores.load_all s).0 | some e ↦ none ]

  unfoldable pub new_manager : Option stores.State → FlagManager
  unfolding add_all
  new_manager none = record { store = none; flags = []; defaults = [] }
  new_manager (some s) = elim (loaded s) [
    | none ↦ record { store = some s; flags = []; defaults = [] }
    | some flags ↦ record { store = some s; flags = add_all flags []; defaults = [] }
  ]

  -- `if m.store != nil { return m.store.Save(flag) }`
  abbrev pub save_in : Flag floats → FlagManager → FlagManager × Option FlagError
  save_in flag m = elim m.store [
    | none ↦ (m, none)
    | some s ↦ (record m { store = some (stores.save flag s).0 }, (stores.save flag s).1)
  ]

  -- The flag with its creation time, where that is not set, and `now` as its last change.
  abbrev pub stamped : ℤ → Flag floats → Flag floats
  stamped now flag = elim flag.created_at [
    | none ↦ record flag { created_at = some now; updated_at = now }
    | some t ↦ record flag { updated_at = now }
  ]

  -- `m.flags[flag.Key] = flag` and the store's `Save`.
  abbrev pub put : Text → Flag floats → FlagManager → FlagManager × Option FlagError
  put key flag m = save_in flag (record m { flags = insert key flag m.flags })

  unfoldable pub register : ℤ → Flag floats → FlagManager → FlagManager × Option FlagError
  register now flag m =
      if eqb (length flag.key) 0 then (m, some invalid_key) else put flag.key (stamped now flag) m

  unfoldable pub set_default : Text → Bool → FlagManager → FlagManager
  set_default key enabled m = record m { defaults = insert key enabled m.defaults }

  unfoldable pub set_defaults : Map Text Bool → FlagManager → FlagManager
  unfolding set_default
  set_defaults [] m = m
  set_defaults ((k, v) ∷ more) m = set_defaults more (set_default k v m)

  unfoldable pub get : Text → FlagManager → Option (Flag floats)
  get key m = lookup key m.flags

  -- `none` is a panic of a comparison.
  unfoldable pub is_enabled_for : Text → Option (EvalContext floats) → FlagManager → Option Bool
  unfolding evaluate
  is_enabled_for key ctx m = elim (lookup key m.flags) [
    | none ↦ some (or_false (lookup key m.defaults))
    | some flag ↦ evaluate flag (or_empty ctx)
  ]

  unfoldable pub is_enabled : Text → FlagManager → Option Bool
  unfolding is_enabled_for
  is_enabled key m = is_enabled_for key none m

  unfoldable pub get_variant :
      Text → Option (EvalContext floats) → FlagManager → Option (Selection (Any floats))
  unfolding variant_of
  get_variant key ctx m = elim (lookup key m.flags) [
    | none ↦ some nothing
    | some flag ↦ variant_of flag (or_empty ctx)
  ]

  unfoldable pub set_enabled : ℤ → Text → Bool → FlagManager → FlagManager × Option FlagError
  set_enabled now key enabled m = elim (lookup key m.flags) [
    | none ↦ (m, some flag_not_found)
    | some flag ↦ put key (record flag { enabled = enabled; updated_at = now }) m
  ]

  unfoldable pub set_percentage : ℤ → Text → ℤ → FlagManager → FlagManager × Option FlagError
  set_percentage now key percentage m =
      if ltb_ℤ percentage (pos 0) || ltb_ℤ (pos 100) percentage
      then (m, some invalid_percentage)
      else elim (lookup key m.flags) [
        | none ↦ (m, some flag_not_found)
        | some flag ↦ put key (record flag { percentage = percentage; updated_at = now }) m
      ]

  unfoldable pub delete : Text → FlagManager → FlagManager × Option FlagError
  delete key m = elim (lookup key m.flags) [
    | none ↦ (m, some flag_not_found)
    | some flag ↦
        let m' = record m { flags = erase key m.flags } in
        elim m.store [
          | none ↦ (m', none)
          | some s ↦ (record m' { store = some (stores.delete key s).0 }, (stores.delete key s).1)
        ]
  ]

  unfoldable pub reload : FlagManager → FlagManager × Option FlagError
  unfolding add_all
  reload m = elim m.store [
    | none ↦ (m, none)
    | some s ↦ elim (stores.load_all s).1 [
      | some e ↦ (m, some e)
      | none ↦ (record m { flags = add_all (stores.load_all s).0 [] }, none)
    ]
  ]

abbrev pub values : {V : Type 0} → Map Text V → List V
values [] = []
values ((k, v) ∷ m) = v ∷ values m

-- MemoryStore: its methods return no error but for `Load` of a missing key.
abbrev pub memory_store : (floats : Floats) → Stores floats
memory_store floats = record {
  State = Map Text (Flag floats);
  load_all = λ flags. (values flags, none);
  save = λ flag flags. (insert flag.key flag flags, none);
  delete = λ key flags. (erase key flags, none);
}

unfoldable pub load : {floats : Floats} → Text → Map Text (Flag floats) → Flag floats ⊎ FlagError
load key flags = elim (lookup key flags) [ none ↦ inr flag_not_found | some flag ↦ inl flag ]

abbrev pub new_memory_manager : (floats : Floats) → FlagManager (memory_store floats)
new_memory_manager floats = new_manager (memory_store floats) (some [])
