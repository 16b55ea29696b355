-- ===== src/Audit/Events.antt =====
-- pantry/audit: what a query asks of an event (audit.go, store.go). Of an event, the fields that
-- queries read; a text is a list of bytes.
pub mod Wildcards
use waffle.Base.{
  Bool, true, false, not, ◌&&◌, ◌||◌, Option, none, some, List, [], ◌∷◌, ℤ, ltb_ℤ, eqb_ℤ, Text,
  text_eq, text_less, has_prefix, has_suffix, if◌then◌else◌, split,
}
use waffle.Validate.Formats.{codes}
use waffle.Email.Queue.{zero_time}

-- Actor and Resource, by their id and their type.
pub record Named : Type 0 where
  pub id : Text
  pub kind : Text

pub record Event : Type 0 where
  pub timestamp : ℤ
  pub action : Text
  pub actor : Option Named
  pub resource : Option Named
  pub outcome : Text
  pub tags : List Text

pub record Query : Type 0 where
  pub actor_id : Text
  pub actor_type : Text
  pub resource_id : Text
  pub resource_type : Text
  pub action : Text
  pub actions : List Text
  pub outcome : Text
  pub tags : List Text
  pub from : ℤ
  pub to : ℤ
  pub limit : ℤ
  pub offset : ℤ
  pub order_by : Text
  pub order_desc : Bool

abbrev pub is_blank : Text → Bool
is_blank [] = true
is_blank (b ∷ s) = false

-- The cases of a pattern with stars, by the texts between them.
unfoldable pub match_parts : Text → List Text → Bool
unfolding has_prefix has_suffix
match_parts action (before ∷ after ∷ []) =
    if is_blank before
    then has_suffix action after
    else (if is_blank after
        then has_prefix action before
        else has_prefix action before && has_suffix action after)
match_parts action _ = false

-- A pattern with no star has one part, which `match_parts` refuses.
unfoldable pub match_action : Text → Text → Bool
unfolding text_eq match_parts split
match_action action pattern =
    if text_eq pattern action then true else match_parts action (split b'*' [] pattern)

-- The loops that look for a pattern of the list, and for a tag.
unfoldable pub matches_any : Text → List Text → Bool
unfolding match_action
matches_any action [] = false
matches_any action (p ∷ ps) =
    let rest = matches_any action ps in if match_action action p then true else rest

unfoldable pub has_tag : Text → List Text → Bool
unfolding text_eq
has_tag tag [] = false
has_tag tag (t ∷ ts) = let rest = has_tag tag ts in if text_eq t tag then true else rest

unfoldable pub has_tags : List Text → List Text → Bool
unfolding has_tag
has_tags [] tags = true
has_tags (t ∷ ts) tags = let rest = has_tags ts tags in if not (has_tag t tags) then false else rest

-- `event.Actor == nil || event.Actor.ID != query.ActorID`, of either field.
abbrev pub has_id : Option Named → Text → Bool
has_id none id = false
has_id (some x) id = text_eq x.id id

abbrev pub has_kind : Option Named → Text → Bool
has_kind none kind = false
has_kind (some x) kind = text_eq x.kind kind

abbrev pub any_action : Text → List Text → Bool
any_action action [] = true
any_action action (p ∷ ps) = matches_any action (p ∷ ps)

unfoldable pub matches_query : Event → Query → Bool
unfolding text_eq match_action matches_any has_tags
matches_query e q =
    (is_blank q.actor_id || has_id e.actor q.actor_id)
    && (is_blank q.actor_type || has_kind e.actor q.actor_type)
    && (is_blank q.resource_id || has_id e.resource q.resource_id)
    && (is_blank q.resource_type || has_kind e.resource q.resource_type)
    && (is_blank q.action || match_action e.action q.action)
    && any_action e.action q.actions
    && (is_blank q.outcome || text_eq e.outcome q.outcome)
    && has_tags q.tags e.tags
    && (eqb_ℤ q.from zero_time || not (ltb_ℤ e.timestamp q.from))
    && (eqb_ℤ q.to zero_time || not (ltb_ℤ q.to e.timestamp))

-- The keys by which events are put in order; a missing actor or resource counts as "".
abbrev pub id_of : Option Named → Text
id_of none = []
id_of (some x) = x.id

pub data OrderBy : Type 0 where
  by_timestamp by_action by_actor by_resource unordered : OrderBy

-- The order that the text OrderBy names; the empty text is the timestamp.
unfoldable pub order_of : Text → OrderBy
unfolding text_eq
order_of name =
    if is_blank name || text_eq name (codes "timestamp")
    then by_timestamp
    else (if text_eq name (codes "action")
        then by_action
        else (if text_eq name (codes "actor")
            then by_actor
            else (if text_eq name (codes "resource") then by_resource else unordered)))

-- `cmp < 0`
unfoldable pub is_before : OrderBy → Event → Event → Bool
unfolding text_less
is_before by_timestamp a b = ltb_ℤ a.timestamp b.timestamp
is_before by_action a b = text_less a.action b.action
is_before by_actor a b = text_less (id_of a.actor) (id_of b.actor)
is_before by_resource a b = text_less (id_of a.resource) (id_of b.resource)
is_before unordered a b = false

-- The function that sortEvents gives to sort.Slice; `cmp > 0` is `cmp < 0` the other way round.
unfoldable pub event_less : OrderBy → Bool → Event → Event → Bool
unfolding is_before
event_less order desc a b = if desc then is_before order b a else is_before order a b
