-- ===== src/Urls/Back.antt =====
-- pantry/httpnav: the address to go back to, and what a request asks for, over `url.Parse`.
pub mod Local
use waffle.Base.{
  ◌≡◌, ◌∙◌, refl, Bool, true, false, ◌&&◌, ◌||◌, Option, none, some, List, [], ◌∷◌, ◌++◌,
  if◌then◌else◌, Text, ◌==◌, comparable_text, text_eq, has_prefix, Bool-cases, ◌⊎◌, inl, inr, arith,
}
use waffle.Urls.Spaces.{trim_space}
use waffle.Urls.Paths.{is_empty}
use waffle.Urls.Safe.{Url, slash}

-- What the code reads of a request: `r.URL.Query().Get("return")`, `r.FormValue("return")`, the
-- Referer header, and the host, path and query of its address.
pub record Request : Type 0 where
  pub query_return : Text
  pub form_return : Text
  pub referer : Text
  pub host : Text
  pub path : Text
  pub raw_query : Text

unfoldable pub is_local : Text → Bool
unfolding has_prefix
is_local p = if is_empty p then false else has_prefix p slash

unfoldable pub pick_query : Text → Text
pick_query raw = if is_empty raw then [] else b'?' ∷ raw

unfoldable pub has_explicit_return : Request → Bool
unfolding trim_space has_prefix
has_explicit_return r =
    let ret = trim_space r.query_return in if is_empty ret then false else has_prefix ret slash

unfoldable pub current_path : Request → Text
current_path r = if is_empty r.raw_query then r.path else r.path ++ (b'?' ∷ r.raw_query)

-- The path of a Referer of the same host, or none.
unfoldable pub referer_path : (Text → Option Url) → Request → Option Text
unfolding has_prefix pick_query is_local
referer_path parse r = if is_empty r.referer then none else elim (parse r.referer) [
  | none ↦ none
  | some u ↦
      if (is_empty u.scheme && has_prefix u.path slash)
        || (u.host == r.host && has_prefix u.path slash)
      then (if is_local (u.path ++ pick_query u.raw_query)
          then some (u.path ++ pick_query u.raw_query)
          else none)
      else none
]

-- A fallback that is not local is replaced by "/".
abbrev pub local_fallback : Text → Text
local_fallback fallback = if is_local fallback then fallback else slash

unfoldable pub resolve_back_url : (Text → Option Url) → Request → Text → Text
unfolding trim_space is_local referer_path
resolve_back_url parse r fallback =
    if is_local (trim_space r.query_return)
    then trim_space r.query_return
    else (if is_local (trim_space r.form_return)
        then trim_space r.form_return
        else elim (referer_path parse r) [ none ↦ local_fallback fallback | some path ↦ path ])
