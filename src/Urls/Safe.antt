-- ===== src/Urls/Safe.antt =====
-- pantry/urlutil/urlutil.go over `url.Parse`, of which the code reads the parts in `Url`.
pub mod Returns
use waffle.Base.{
  ℕ, Bool, true, false, not, ◌&&◌, ◌||◌, Option, none, some, List, [], ◌∷◌, ◌++◌, eqb,
  if◌then◌else◌, Text, ◌==◌, comparable_text, has_prefix,
}
use waffle.Urls.Spaces.{trim_space}
use waffle.Urls.Paths.{is_empty, clean, path_has_segment}

pub record Url : Type 0 where
  pub scheme : Text
  pub host : Text
  pub has_user : Bool
  pub path : Text
  pub raw_query : Text

-- `strings.ContainsRune` for a byte below 128.
unfoldable pub contains_byte : ℕ → Text → Bool
contains_byte c [] = false
contains_byte c (b ∷ bs) = eqb b c || contains_byte c bs

abbrev pub slash : Text
slash = b'/' ∷ []

-- `DefaultExcludedPaths`: "/logout" and "/login".
abbrev pub default_excluded_paths : List Text
default_excluded_paths =
    (b'/' ∷ b'l' ∷ b'o' ∷ b'g' ∷ b'o' ∷ b'u' ∷ b't' ∷ [])
    ∷ (b'/' ∷ b'l' ∷ b'o' ∷ b'g' ∷ b'i' ∷ b'n' ∷ [])
    ∷ []

-- The checks of the text as it was given.
unfoldable pub is_refused : Text → Bool
unfolding contains_byte has_prefix
is_refused ret =
    is_empty ret
    || (contains_byte b'\r' ret || contains_byte b'\n' ret)
    || contains_byte b'\\' ret
    || (not (has_prefix ret slash) || has_prefix ret (b'/' ∷ b'/' ∷ []))

-- The loop over the excluded paths.
unfoldable pub is_excluded : Text → List Text → Bool
unfolding has_prefix
is_excluded path [] = false
is_excluded path (ex ∷ excluded) =
    let rest = is_excluded path excluded in
    if path == ex || has_prefix path (ex ++ (b'?' ∷ [])) then true else rest

module _ (parse : Text → Option Url) where
  -- `err != nil || u.IsAbs() || u.Host != "" || u.Scheme != ""`
  unfoldable pub is_foreign : Text → Bool
  is_foreign t = elim (parse t) [
    | none ↦ true
    | some u ↦ not (is_empty u.scheme) || not (is_empty u.host) || not (is_empty u.scheme)
  ]

  unfoldable pub safe_return_excluding : Text → Text → Text → List Text → Text
  unfolding trim_space is_refused clean is_foreign path_has_segment is_excluded
  safe_return_excluding given bad_id fallback excluded =
      let ret = trim_space given in
      let path = clean ret in
      if is_refused ret
      then fallback
      else (if not (has_prefix path slash) || is_foreign path
          then fallback
          else (if not (is_empty bad_id) && path_has_segment path bad_id
              then fallback
              else (if is_excluded path excluded then fallback else path)))

  unfoldable pub safe_return : Text → Text → Text → Text
  unfolding safe_return_excluding
  safe_return ret bad_id fallback = safe_return_excluding ret bad_id fallback default_excluded_paths

  unfoldable pub safe_return_raw : Text → Text → Text → Text
  unfolding safe_return_excluding
  safe_return_raw ret bad_id fallback = safe_return_excluding ret bad_id fallback []

  unfoldable pub is_valid_abs_http_url : Text → Bool
  unfolding trim_space contains_byte
  is_valid_abs_http_url given =
      let s = trim_space given in
      let http = b'h' ∷ b't' ∷ b't' ∷ b'p' ∷ [] in
      if is_empty s || contains_byte b'\r' s || contains_byte b'\n' s
      then false
      else elim (parse s) [
        | none ↦ false
        | some u ↦
            if is_empty u.host || (not (u.scheme == http) && not (u.scheme == http ++ (b's' ∷ [])))
            then false
            else not u.has_user
      ]
