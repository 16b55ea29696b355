-- ===== src/Storage/Names.antt =====
-- NormalizePath and ValidatePath. `filepath.Clean` is `path.Clean` where a slash separates names.
use waffle.Base.{
  ℕ, Bool, false, not, ◌&&◌, ◌||◌, [], ◌∷◌, eqb, if◌then◌else◌, map, Text, contains_text,
  reverse_onto,
}
use waffle.Urls.Paths.{clean, is_empty, is_slash}

unfoldable pub skip_slashes : Text → Text
skip_slashes [] = []
skip_slashes (b ∷ t) = let rest = skip_slashes t in if is_slash b then rest else b ∷ t

-- `strings.Trim(path, "/")`
unfoldable pub trim_slashes : Text → Text
unfolding skip_slashes reverse_onto
trim_slashes t = reverse_onto (skip_slashes (reverse_onto (skip_slashes t) [])) []

-- `strings.ReplaceAll(path, "\\", "/")`
abbrev pub forward_slash : ℕ → ℕ
forward_slash b = if eqb b b'\\' then b'/' else b

-- The loop that makes one slash of two until there are no two left.
unfoldable pub single_slashes : Text → Text
single_slashes [] = []
single_slashes (b ∷ []) = b ∷ []
single_slashes (b ∷ c ∷ t) =
    let rest = single_slashes (c ∷ t) in if is_slash b && is_slash c then rest else b ∷ rest

unfoldable pub normalize_path : Text → Text
unfolding trim_slashes clean single_slashes
normalize_path path = single_slashes (map forward_slash (clean (trim_slashes path)))

unfoldable pub has_zero : Text → Bool
has_zero [] = false
has_zero (b ∷ t) = eqb b 0 || has_zero t

unfoldable pub is_valid_path : Text → Bool
unfolding contains_text has_zero
is_valid_path path =
    if is_empty path
    then false
    else (if contains_text path (b'.' ∷ b'.' ∷ []) then false else not (has_zero path))
