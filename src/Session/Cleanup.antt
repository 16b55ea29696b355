-- ===== src/Session/Cleanup.antt =====
-- The cleanup goroutine shows in no loaded session.
use waffle.Base.{
  ◌≡◌, refl, ◌∙◌, sym, Option, none, some, List, [], ◌∷◌, String, ℤ, ◌≤ℤ◌, All, lookup, unless,
  IsMap, insert-IsMap, erase-IsMap, delete_if-IsMap, lookup-insert, lookup-erase, lookup-delete_if,
  comparable_string, arith,
}
use waffle.Session.{
  Loaded, ok, err, SessionData, MemoryStore, is_expired, load, save, delete, remove_expired,
  new_memory_store_with_config,
}

-- The session that was loaded, if there is one.
abbrev pub found : {V : Type 0} → Loaded (SessionData V) → Option (SessionData V)
found (ok d) = some d
found (err e) = none

-- A write, or a tick of the cleanup at some time.
pub data Op (V : Type 0) : Type 0 where
  save_op : SessionData V → Op V
  delete_op : String → Op V
  tick : ℤ → Op V

module _ {V : Type 0} where
  unfoldable pub run : List (Op V) → MemoryStore V → MemoryStore V
  run [] s = s
  run (save_op d ∷ ops) s = run ops (save d s)
  run (delete_op id ∷ ops) s = run ops (delete id s)
  run (tick t ∷ ops) s = run ops (remove_expired t s)

  -- The writes alone.
  unfoldable pub writes : List (Op V) → List (Op V)
  writes [] = []
  writes (save_op d ∷ ops) = save_op d ∷ writes ops
  writes (delete_op id ∷ ops) = delete_op id ∷ writes ops
  writes (tick t ∷ ops) = writes ops

  abbrev pub IsBefore : ℤ → Op V → Type 0
  IsBefore now (save_op d) = Unit
  IsBefore now (delete_op id) = Unit
  IsBefore now (tick t) = t ≤ℤ now

  module _ (now : ℤ) where
    abbrev view : String → MemoryStore V → Option (SessionData V)
    view id s = found (load now id s)

    view_lem :
        (id : String) (s : MemoryStore V)
        → view id s ≡ unless (is_expired now) (lookup id s.sessions)
    unfolding load
    view_lem id s = ground arith

    record Same (s s' : MemoryStore V) : Type 0 where
      distinct : IsMap s.sessions
      same :
          (id : String)
          → unless (is_expired now) (lookup id s.sessions)
            ≡ unless (is_expired now) (lookup id s'.sessions)

    save-Same : (d : SessionData V) (s s' : MemoryStore V) → Same s s' → Same (save d s) (save d s')
    unfolding save
    save-Same d s s' h = record {
      distinct = insert-IsMap d.id d s.sessions h.distinct;
      same = λ id. ground (
        arith,
        lookup-insert d.id id d s.sessions,
        lookup-insert d.id id d s'.sessions,
        h.same id,
      );
    }

    delete-Same : (i : String) (s s' : MemoryStore V) → Same s s' → Same (delete i s) (delete i s')
    unfolding delete
    delete-Same i s s' h = record {
      distinct = erase-IsMap i s.sessions h.distinct;
      same = λ id.
          ground (arith, lookup-erase i id s.sessions, lookup-erase i id s'.sessions, h.same id);
    }

    tick-Same : (t : ℤ) (s s' : MemoryStore V) → t ≤ℤ now → Same s s' → Same (remove_expired t s) s'
    unfolding remove_expired
    tick-Same t s s' le h = record {
      distinct = delete_if-IsMap (is_expired t) s.sessions h.distinct;
      same =
          λ id. ground (arith, lookup-delete_if (is_expired t) id s.sessions h.distinct, h.same id);
    }

    run-Same :
        (ops : List (Op V)) (s s' : MemoryStore V)
        → All (IsBefore now) ops
        → Same s s'
        → Same (run ops s) (run (writes ops) s')
    unfolding run writes
    run-Same [] s s' b h = h
    run-Same (save_op d ∷ ops) s s' (b, bs) h = run-Same ops _ _ bs (save-Same d s s' h)
    run-Same (delete_op i ∷ ops) s s' (b, bs) h = run-Same ops _ _ bs (delete-Same i s s' h)
    run-Same (tick t ∷ ops) s s' (b, bs) h = run-Same ops _ _ bs (tick-Same t s s' b h)

  -- On a new store, whatever the ticks of the cleanup at times up to `now`, `Load` at `now` finds
  -- a session exactly if it finds it without them, and the same one; only which of the two errors
  -- it returns can differ.
  pub found-load :
      (now interval : ℤ) (id : String) (ops : List (Op V))
      → All (IsBefore now) ops
      → let new : MemoryStore V = new_memory_store_with_config interval in
        found (load now id (run ops new)) ≡ found (load now id (run (writes ops) new))
  unfolding new_memory_store_with_config
  found-load now interval id ops b =
      let new : MemoryStore V = new_memory_store_with_config interval in
      let h = run-Same now ops new new b (record { distinct = tt; same = λ i. refl }) in
      view_lem now id (run ops new) ∙ h.same id ∙ sym (view_lem now id (run (writes ops) new))
