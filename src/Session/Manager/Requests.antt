-- ===== src/Session/Manager/Requests.antt =====
-- pantry/session/session.go: what later requests get from a manager over MemoryStore.
use waffle.Base.{
  ◌≡◌, ◌≢◌, refl, true, false, Bool-cases, inl, inr, Option, none, some, String, ◌==◌,
  comparable_string, ℤ, ltb_ℤ, if◌then◌else◌, lookup-erase, arith,
}
use waffle.Session.{MemoryStore, err, not_found, load, save, delete}
use waffle.Session.Writes.{load-save}
use waffle.Session.Manager.{
  Session, Config, found, memory_store, new_session, load_session, get_session, data_of,
  save_session, regenerate,
}

not_same : (a b : String) → a ≢ b → (a == b) ≡ false
not_same a b different = ground (arith, comparable_string.equals_iff a b)

module _ {V : Type 0} (cfg : Config) where
  -- The session as a request that finds it gets it.
  abbrev pub as_loaded : Session V → Session V
  as_loaded session = record session { is_new = false; modified = false }

  load-data_of :
      (now later : ℤ) (session : Session V) (s : MemoryStore V)
      → found (load later session.id (save (data_of (memory_store V) cfg now session) s)) ≡ (
          if ltb_ℤ session.expires_at later
          then none
          else some (data_of (memory_store V) cfg now session))
  unfolding data_of
  load-data_of now later session s = ground (
    arith,
    load-save later session.id s (data_of (memory_store V) cfg now session),
    comparable_string.equals_iff session.id session.id,
  )

  -- After Save, a request with the cookie that it sets gets the session, up to the end of its
  -- lifetime, with the values that it had; later on the request gets a new session.
  pub get_session-save :
      (now later : ℤ) (generated : Option String) (session : Session V) (s : MemoryStore V)
      → session.id ≢ ""
      → let saved = (save_session (memory_store V) cfg now session s).0 in
        (get_session (memory_store V) cfg later generated (some session.id) saved).1 ≡ (
          if ltb_ℤ session.expires_at later
          then new_session cfg later generated
          else some (as_loaded session))
  unfolding get_session load_session save_session data_of
  get_session-save now later generated session s id =
      let some_id = not_same session.id "" id in
      let loaded = load-data_of now later session s in
      elim (Bool-cases (ltb_ℤ session.expires_at later)) [
        | inl over ↦ rw (get_session, some_id, load_session, loaded, over) refl
        | inr lives ↦ rw (get_session, some_id, load_session, loaded, lives) (rw lives refl)
      ]

  load-delete :
      (later : ℤ) (id : String) (s : MemoryStore V) → load later id (delete id s) ≡ err not_found
  unfolding load delete
  load-delete later id s =
      rw (load, lookup-erase id id s.sessions, (comparable_string.equals_iff id id).1 refl) refl

  load-old :
      (now later : ℤ) (session : Session V) (old : String) (s : MemoryStore V)
      → session.id ≢ old
      → found (load later old (save (data_of (memory_store V) cfg now session) (delete old s)))
        ≡ none
  unfolding data_of
  load-old now later session old s different =
      rw
        (
          load-save later old (delete old s) (data_of (memory_store V) cfg now session),
          not_same session.id old different,
          load-delete later old s,
        )
        refl

  old_cookie :
      (now later : ℤ) (generated : Option String) (session : Session V) (old : String)
      (s : MemoryStore V)
      → old ≢ ""
      → session.id ≢ old
      → let saved = (save_session (memory_store V) cfg now session (delete old s)).0 in
        (get_session (memory_store V) cfg later generated (some old) saved).1
        ≡ new_session cfg later generated
  unfolding get_session load_session save_session
  old_cookie now later generated session old s was different =
      rw
        (get_session, not_same old "" was, load_session, load-old now later session old s different)
        refl

  -- After Regenerate with a new id, a request with the old cookie gets a new session, and one with
  -- the new cookie gets the session with its values, up to the end of its lifetime.
  pub get_session-regenerate :
      (now later : ℤ) (generated : Option String) (id : String) (session : Session V)
      (s : MemoryStore V)
      → session.id ≢ ""
      → id ≢ ""
      → id ≢ session.id
      → let after = (regenerate (memory_store V) cfg now (some id) session s).1.0 in
        ((get_session (memory_store V) cfg later generated (some session.id) after).1
          ≡ new_session cfg later generated)
        × ((get_session (memory_store V) cfg later generated (some id) after).1 ≡ (
            if ltb_ℤ session.expires_at later
            then new_session cfg later generated
            else some (as_loaded (record session { id = id }))))
  unfolding regenerate
  get_session-regenerate now later generated id session s was is different = (
    old_cookie now later generated (record session { id = id; modified = true }) session.id s was
        different,
    get_session-save now later generated (record session { id = id; modified = true })
        (delete session.id s) is,
  )
