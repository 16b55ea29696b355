-- ===== src/Feature/Manager/Reloads.antt =====
-- The manager over a memory store: what it has is what the store has.
use mathlib.Core.Option
use mathlib.Core.Path.{subst}
use waffle.Base.{
  ◌≡◌, ◌∙◌, sym, ap, refl, Bool, Option, none, some, List, [], ◌∷◌, All, ℤ, pos, Text, Map, lookup,
  insert, erase, IsMap, lookup-insert, lookup-erase, insert-IsMap, erase-IsMap, comparable_text,
  ◌==◌, ltb_ℤ, ◌||◌, arith, Option-cases, Bool-cases, inl, inr, eqb, length,
}
use waffle.Feature.Values.{Floats}
use waffle.Feature.Flags.{Flag}
use waffle.Feature.Manager.{
  FlagManager, FlagError, add_all, values, memory_store, new_memory_manager, new_manager, register,
  set_default, set_enabled, set_percentage, delete, reload, put, stamped, get,
}

abbrev Flags : Floats → Type 0
Flags floats = Map Text (Flag floats)

module _ {floats : Floats} where
  abbrev OwnKeys : Flags floats → Type 0
  OwnKeys = All (λ e. e.1.key ≡ e.0)

  insert-OwnKeys : (f : Flag floats) (m : Flags floats) → OwnKeys m → OwnKeys (insert f.key f m)
  unfolding insert
  insert-OwnKeys f [] h = (refl, tt)
  insert-OwnKeys f ((j, g) ∷ m) h = ground (arith, insert-OwnKeys f m h.1)

  erase-OwnKeys : (k : Text) (m : Flags floats) → OwnKeys m → OwnKeys (erase k m)
  unfolding erase
  erase-OwnKeys k [] h = tt
  erase-OwnKeys k ((j, g) ∷ m) h = ground (arith, erase-OwnKeys k m h.1)

  abbrev or_else : Option (Flag floats) → Option (Flag floats) → Option (Flag floats)
  or_else none o = o
  or_else (some f) o = some f

  lookup-add_all :
      (k : Text) (m acc : Flags floats)
      → IsMap m
      → OwnKeys m
      → lookup k (add_all (values m) acc) ≡ or_else (lookup k m) (lookup k acc)
  unfolding add_all lookup
  lookup-add_all k [] acc h own = refl
  lookup-add_all k ((j, f) ∷ m) acc h own = ground (
    arith,
    lookup-add_all k m (insert f.key f acc) h.1 own.1,
    lookup-insert f.key k f acc,
    comparable_text.equals_iff j k,
  )

  -- What the manager knows of its store: the same flags, each under its own key.
  abbrev Agrees : Flags floats → Flags floats → Type 0
  Agrees flags s = IsMap s × OwnKeys s × ((k : Text) → lookup k flags ≡ lookup k s)

  insert-Agrees :
      (f : Flag floats) (flags s : Flags floats)
      → Agrees flags s
      → Agrees (insert f.key f flags) (insert f.key f s)
  insert-Agrees f flags s (m, own, e) = (
    insert-IsMap f.key f s m,
    insert-OwnKeys f s own,
    λ k. rw (lookup-insert f.key k f flags, lookup-insert f.key k f s, e k) refl,
  )

  erase-Agrees :
      (key : Text) (flags s : Flags floats)
      → Agrees flags s
      → Agrees (erase key flags) (erase key s)
  erase-Agrees key flags s (m, own, e) = (
    erase-IsMap key s m,
    erase-OwnKeys key s own,
    λ k. rw (lookup-erase key k flags, lookup-erase key k s, e k) refl,
  )

  key-lookup :
      (k : Text) (f : Flag floats) (m : Flags floats) → OwnKeys m → lookup k m ≡ some f → f.key ≡ k
  unfolding lookup
  key-lookup k f [] h e = cc
  key-lookup k f ((j, g) ∷ m) h e = elim (Bool-cases (j == k)) [
    | inl t ↦
        let same : g ≡ f = Option.some-injective g f (rw t at e) in
        sym (ap (λ (x : Flag floats). x.key) same) ∙ (h.0 ∙ (comparable_text.equals_iff j k).0 t)
    | inr t ↦ key-lookup k f m h.1 (rw t at e)
  ]

pub data Op (floats : Floats) : Type 0 where
  register_op : ℤ → Flag floats → Op floats
  default_op : Text → Bool → Op floats
  enabled_op : ℤ → Text → Bool → Op floats
  percentage_op : ℤ → Text → ℤ → Op floats
  delete_op : Text → Op floats
  reload_op : Op floats

module _ {floats : Floats} where
  unfoldable pub step :
      Op floats
      → FlagManager (memory_store floats)
      → FlagManager (memory_store floats) × Option FlagError
  unfolding register set_default set_enabled set_percentage delete reload
  step (register_op now f) m = register (memory_store floats) now f m
  step (default_op k b) m = (set_default (memory_store floats) k b m, none)
  step (enabled_op now k b) m = set_enabled (memory_store floats) now k b m
  step (percentage_op now k p) m = set_percentage (memory_store floats) now k p m
  step (delete_op k) m = delete (memory_store floats) k m
  step reload_op m = reload (memory_store floats) m

  unfoldable pub run :
      List (Op floats) → FlagManager (memory_store floats) → FlagManager (memory_store floats)
  unfolding step
  run [] m = m
  run (op ∷ ops) m = run ops (step op m).0

  -- A store is there, with the flags of the manager.
  abbrev IsSynced : FlagManager (memory_store floats) → Type 0
  IsSynced m = (s : Flags floats) × (m.store ≡ some s) × Agrees m.flags s

  put-IsSynced :
      (f : Flag floats) (m : FlagManager (memory_store floats))
      → IsSynced m
      → IsSynced (put (memory_store floats) f.key f m).0
  put-IsSynced f m (s, e, h) = rw e (insert f.key f s, refl, insert-Agrees f m.flags s h)

  update-IsSynced :
      (k : Text) (f : Flag floats) (m : FlagManager (memory_store floats))
      → f.key ≡ k
      → IsSynced m
      → IsSynced (put (memory_store floats) k f m).0
  update-IsSynced k f m e h =
      subst (λ j. IsSynced (put (memory_store floats) j f m).0) e (put-IsSynced f m h)

  or_else-none : (o : Option (Flag floats)) → or_else o none ≡ o
  or_else-none none = refl
  or_else-none (some f) = refl

  reload-Agrees : (s : Flags floats) → IsMap s → OwnKeys s → Agrees (add_all (values s) []) s
  unfolding lookup
  reload-Agrees s m own = (m, own, λ k. lookup-add_all k s [] m own ∙ or_else-none (lookup k s))

  -- The flag under a key, changed where it is there.
  change-IsSynced :
      (k : Text) (change : Flag floats → Flag floats) (m : FlagManager (memory_store floats))
      → ((f : Flag floats) → (change f).key ≡ f.key)
      → (f : Flag floats) → lookup k m.flags ≡ some f
      → IsSynced m
      → IsSynced (put (memory_store floats) k (change f) m).0
  change-IsSynced k change m same f e (s, stored, (map, own, agree)) =
      update-IsSynced k (change f) m (same f ∙ key-lookup k f s own (sym (agree k) ∙ e))
        (s, stored, (map, own, agree))

  stamped-key : (now : ℤ) (f : Flag floats) → (stamped (memory_store floats) now f).key ≡ f.key
  stamped-key now f = elim (Option-cases f.created_at) [
    | inl e ↦ rw e refl
    | inr (t, e) ↦ rw e refl
  ]

  step-IsSynced :
      (op : Op floats) (m : FlagManager (memory_store floats)) → IsSynced m → IsSynced (step op m).0
  unfolding step register set_default set_enabled set_percentage delete reload
  step-IsSynced (register_op now f) m h = elim (Bool-cases (eqb (length f.key) 0)) [
    | inl e ↦ rw e h
    | inr e ↦
        rw e (update-IsSynced f.key (stamped (memory_store floats) now f) m (stamped-key now f) h)
  ]
  step-IsSynced (default_op k b) m h = h
  step-IsSynced (enabled_op now k b) m h = elim (Option-cases (lookup k m.flags)) [
    | inl e ↦ rw (e, set_enabled) h
    | inr (f, e) ↦
        rw (e, set_enabled)
          (change-IsSynced k (λ f. record f { enabled = b; updated_at = now }) m (λ f. refl) f e h)
  ]
  step-IsSynced (percentage_op now k p) m h =
      elim (Bool-cases (ltb_ℤ p (pos 0) || ltb_ℤ (pos 100) p)) [
        | inl e ↦ rw e h
        | inr e ↦ elim (Option-cases (lookup k m.flags)) [
          | inl l ↦ rw (e, l, set_percentage) h
          | inr (f, l) ↦
              rw (e, l, set_percentage)
                (change-IsSynced k (λ f. record f { percentage = p; updated_at = now }) m
                  (λ f. refl) f l h)
        ]
      ]
  step-IsSynced (delete_op k) m (s, e, h) = elim (Option-cases (lookup k m.flags)) [
    | inl l ↦ rw (l, delete) (s, e, h)
    | inr (f, l) ↦ rw (l, e, delete) (erase k s, refl, erase-Agrees k m.flags s h)
  ]
  step-IsSynced reload_op m (s, e, (map, own, agree)) =
      rw (e, reload) (s, e, reload-Agrees s map own)

  run-IsSynced :
      (ops : List (Op floats)) (m : FlagManager (memory_store floats))
      → IsSynced m
      → IsSynced (run ops m)
  unfolding run
  run-IsSynced [] m h = h
  run-IsSynced (op ∷ ops) m h = run-IsSynced ops (step op m).0 (step-IsSynced op m h)

  new_IsSynced : IsSynced (new_memory_manager floats)
  unfolding new_manager lookup
  new_IsSynced = ([], refl, (tt, tt, λ k. refl))

  -- After any calls on a manager with a memory store, its store has the same flags: Reload succeeds
  -- and changes no flag that Get finds, and a new manager over the store finds the same ones.
  pub get-reload :
      (ops : List (Op floats)) (k : Text)
      → let stores = memory_store floats in
        let m = run ops (new_memory_manager floats) in
        ((reload stores m).1 ≡ none)
        × (get stores k (reload stores m).0 ≡ get stores k m)
        × (get stores k (new_manager stores m.store) ≡ get stores k m)
  unfolding get reload new_manager
  get-reload ops k =
      let (s, e, (map, own, agree)) = run-IsSynced ops (new_memory_manager floats) new_IsSynced in
      let (_, _, again) = reload-Agrees s map own in
      let same = again k ∙ sym (agree k) in rw (e, new_manager) (refl, same, same)
