-- ===== src/Audit/Examples.antt =====
-- pantry/audit: the store and the logger at small inputs.
use waffle.Base.{
  ℕ, suc, ◌+◌, ◌<◌, ◌≡◌, ◌↔◌, refl, Bool, true, false, none, some, List, [], ◌∷◌, ◌++◌, pos, length,
  Text, arith,
}
use waffle.Validate.Formats.{codes}
use waffle.Email.Queue.{zero_time}
use waffle.Audit.Events.{Event, Query, match_action}
use waffle.Audit.Events.Wildcards.{match_action_lem}
use waffle.Audit.Store.{MemoryStore, filter_events}
use waffle.Audit.Store.Pages.{in_order, walk, walk_lem}
use waffle.Audit.Logger.{AuditLogger, Config}
use waffle.Audit.Logger.Closing.{results}

-- The two texts around the star overlap in the action.
overlapping : match_action (codes "aba") (codes "ab*ba") ≡ true
unfolding match_action
overlapping = refl

two_stars : match_action (codes "a.b.c") (codes "a*b*") ≡ false
unfolding match_action
two_stars = refl

match_action_lem_example :
    (match_action (codes "user.login") (codes "user." ++ b'*' ∷ []) ≡ true)
    ↔ ((t : Text) × (codes "user.login" ≡ codes "user." ++ (t ++ [])))
match_action_lem_example =
    match_action_lem (codes "user.login") (codes "user.") []
      (refl, (refl, (refl, (refl, (refl, tt))))) tt (omega arith)

abbrev login : Event
login = record {
  timestamp = pos 1;
  action = codes "user.login";
  actor = none;
  resource = none;
  outcome = [];
  tags = [];
}

abbrev any_event : Query
any_event = record {
  actor_id = [];
  actor_type = [];
  resource_id = [];
  resource_type = [];
  action = [];
  actions = [];
  outcome = [];
  tags = [];
  from = zero_time;
  to = zero_time;
  limit = pos 0;
  offset = pos 0;
  order_by = [];
  order_desc = false;
}

abbrev three_logins : MemoryStore
three_logins = record { events = login ∷ login ∷ login ∷ []; max_len = 10 }

abbrev as_stored : (Event → Event → Bool) → List Event → List Event
as_stored less es = es

few_events : length (in_order as_stored any_event three_logins) + 2 < 0x8000_0000_0000_0000
unfolding filter_events
few_events = omega arith

walk_lem_example :
    walk as_stored
      (suc (length (in_order as_stored any_event three_logins)))
      2
      0
      any_event
      three_logins
    ≡ some (in_order as_stored any_event three_logins)
walk_lem_example = walk_lem as_stored 1 any_event three_logins few_events

abbrev keeps_all : Config ℕ
keeps_all = record { before_log = []; stores = λ e. true }

-- Two workers, of which one has the event 6.
abbrev closing : AuditLogger ℕ
closing = record {
  queue = 7 ∷ [];
  capacity = 2;
  running = 2;
  taken = 6 ∷ [];
  done = true;
  finished = [];
}

abbrev closed : AuditLogger ℕ
closed = record closing {
  queue = [];
  running = 0;
  taken = [];
  finished = results keeps_all (7 ∷ 6 ∷ []);
}
