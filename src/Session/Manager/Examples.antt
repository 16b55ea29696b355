-- ===== src/Session/Manager/Examples.antt =====
-- pantry/session/session.go: a session that gets a new id.
use waffle.Base.{ℕ, ◌≡◌, true, false, some, [], ◌∷◌, pos}
use waffle.Session.{MemoryStore}
use waffle.Session.Manager.{Session, Config, memory_store, new_session, get_session, regenerate}
use waffle.Session.Manager.Requests.{as_loaded, get_session-regenerate}

abbrev defaults : Config
defaults = record {
  cookie_name = "session_id";
  max_age = pos 1000;
  path = "/";
  domain = "";
  secure = true;
  http_only = true;
  same_site = pos 2;
}

abbrev login : Session ℕ
login = record {
  id = "old";
  values = ("user", 7) ∷ [];
  is_new = true;
  modified = true;
  expires_at = pos 1000;
}

abbrev no_sessions : MemoryStore ℕ
no_sessions = record { sessions = []; cleanup_interval = pos 1; is_stopped = false }

get_session-regenerate_example :
    let after =
      (regenerate (memory_store ℕ) defaults (pos 1) (some "old2") login no_sessions).1.0 in
    ((get_session (memory_store ℕ) defaults (pos 9) (some "x") (some "old") after).1
      ≡ new_session defaults (pos 9) (some "x"))
    × ((get_session (memory_store ℕ) defaults (pos 9) (some "x") (some "old2") after).1
        ≡ some (as_loaded defaults (record login { id = "old2" })))
get_session-regenerate_example =
    get_session-regenerate defaults (pos 1) (pos 9) (some "x") "old2" login no_sessions (λ e. cc)
      (λ e. cc) (λ e. cc)
