-- ===== src/Session/Manager.antt =====
-- pantry/session/session.go: Session, and Manager over the interface Store. `V` is the type of the
-- values. IDGenerator is the argument `generated`, none if it fails; a request gives the value of
-- the manager's cookie, and an answer may set it.
pub mod Requests
mod Examples
use waffle.Base.{
  Bool, true, false, Option, none, some, List, [], String, ◌==◌, comparable_string, ℤ, pos, negsuc,
  eqb_ℤ, quot, ltb_ℤ, ◌+ℤ◌, if◌then◌else◌, Map, lookup, insert, erase,
}
use waffle.Session.{Loaded, ok, err, SessionData, MemoryStore, load, save, delete, is_expired}

pub record Session (V : Type 0) : Type 0 where
  pub id : String
  pub values : Map String V
  pub is_new : Bool
  pub modified : Bool
  pub expires_at : ℤ

-- SameSite is a number; 0 stands for none given.
pub record Config : Type 0 where
  pub cookie_name : String
  pub max_age : ℤ
  pub path : String
  pub domain : String
  pub secure : Bool
  pub http_only : Bool
  pub same_site : ℤ

-- http.Cookie; its MaxAge is in seconds.
pub record Cookie : Type 0 where
  pub name : String
  pub value : String
  pub seconds : ℤ
  pub path : String
  pub domain : String
  pub secure : Bool
  pub http_only : Bool
  pub same_site : ℤ

-- Store, less Close. The time is the one that the method reads.
pub record Stores (V : Type 0) : Type 1 where
  pub State : Type 0
  pub Failure : Type 0
  pub load : ℤ → String → State → Option (SessionData V)
  pub save : SessionData V → State → State × Option Failure
  pub delete : String → State → State × Option Failure

abbrev pub zero_time : ℤ
zero_time = negsuc 62_135_596_799_999_999_999

-- NewManager; the Lax mode of SameSite is 2.
unfoldable pub new_manager : Config → Config
new_manager cfg = record cfg {
  cookie_name = if cfg.cookie_name == "" then "session_id" else cfg.cookie_name;
  max_age = if eqb_ℤ cfg.max_age (pos 0) then pos 86_400_000_000_000 else cfg.max_age;
  path = if cfg.path == "" then "/" else cfg.path;
  same_site = if eqb_ℤ cfg.same_site (pos 0) then pos 2 else cfg.same_site;
}

abbrev pub cookie : Config → String → ℤ → Cookie
cookie cfg value seconds = record {
  name = cfg.cookie_name;
  value = value;
  seconds = seconds;
  path = cfg.path;
  domain = cfg.domain;
  secure = cfg.secure;
  http_only = cfg.http_only;
  same_site = cfg.same_site;
}

module _ {V : Type 0} where
  unfoldable pub value_of : String → Session V → Option V
  value_of key s = lookup key s.values

  unfoldable pub set_value : String → V → Session V → Session V
  set_value key v s = record s { values = insert key v s.values; modified = true }

  unfoldable pub delete_value : String → Session V → Session V
  delete_value key s = record s { values = erase key s.values; modified = true }

  unfoldable pub clear_values : Session V → Session V
  clear_values s = record s { values = []; modified = true }

  unfoldable pub new_session : Config → ℤ → Option String → Option (Session V)
  new_session cfg now none = none
  new_session cfg now (some id) = some (record {
    id = id;
    values = [];
    is_new = true;
    modified = true;
    expires_at = now +ℤ cfg.max_age;
  })

  module _ (stores : Stores V) (cfg : Config) where
    -- The block of Get under `err == nil && cookie.Value != ""`.
    unfoldable pub load_session : ℤ → String → stores.State → stores.State × Option (Session V)
    load_session now id s = elim (stores.load now id s) [
      | none ↦ (s, none)
      | some d ↦ if ltb_ℤ d.expires_at now then ((stores.delete id s).0, none) else (
        s,
        some (record {
          id = d.id;
          values = d.values;
          is_new = false;
          modified = false;
          expires_at = d.expires_at;
        }),
      )
    ]

    abbrev pub or_new :
        ℤ → Option String → stores.State × Option (Session V) → stores.State × Option (Session V)
    or_new now generated (s, some session) = (s, some session)
    or_new now generated (s, none) = (s, new_session cfg now generated)

    -- `m.Get(r)`: no session if a new one has no id.
    unfoldable pub get_session :
        ℤ → Option String → Option String → stores.State → stores.State × Option (Session V)
    unfolding load_session new_session
    get_session now generated none s = or_new now generated (s, none)
    get_session now generated (some value) s =
        if value == ""
        then or_new now generated (s, none)
        else or_new now generated (load_session now value s)

    unfoldable pub data_of : ℤ → Session V → SessionData V
    data_of now session = record {
      id = session.id;
      values = session.values;
      expires_at = session.expires_at;
      created_at = if session.is_new then now else zero_time;
      updated_at = now;
    }

    -- What is saved, and the cookie of the answer; none where the store fails.
    abbrev pub with_cookie :
        Cookie → stores.State × Option stores.Failure → stores.State × Option Cookie
    with_cookie c (s, none) = (s, some c)
    with_cookie c (s, some e) = (s, none)

    unfoldable pub save_session : ℤ → Session V → stores.State → stores.State × Option Cookie
    unfolding data_of
    save_session now session s =
        with_cookie (cookie cfg session.id (quot cfg.max_age 1_000_000_000))
          (stores.save (data_of now session) s)

    unfoldable pub destroy : Session V → stores.State → stores.State × Option Cookie
    destroy session s = with_cookie (cookie cfg "" (negsuc 0)) (stores.delete session.id s)

    -- The session after the call, with it.
    unfoldable pub regenerate :
        ℤ → Option String → Session V → stores.State → Session V × (stores.State × Option Cookie)
    unfolding save_session
    regenerate now none session s = (session, (s, none))
    regenerate now (some id) session s =
        let renamed = record session { id = id; modified = true } in
        (renamed, save_session now renamed (stores.delete session.id s).0)

    unfoldable pub refresh :
        ℤ → Session V → stores.State → Session V × (stores.State × Option Cookie)
    unfolding save_session
    refresh now session s =
        let longer = record session { expires_at = now +ℤ cfg.max_age; modified = true } in
        (longer, save_session now longer s)

abbrev pub found : {V : Type 0} → Loaded (SessionData V) → Option (SessionData V)
found (ok d) = some d
found (err e) = none

-- MemoryStore as a Store: Save and Delete return nil.
abbrev pub memory_store : (V : Type 0) → Stores V
memory_store V = record {
  State = MemoryStore V;
  Failure = ⊥;
  load = λ now id s. found (load now id s);
  save = λ d s. (save d s, none);
  delete = λ id s. (delete id s, none);
}
