-- ===== src/Urls/Paths.antt =====
-- `path.Clean` by the rules of its documentation, on the parts of a path between the slashes, and
-- pathHasSegment of urlutil.go.
pub mod Segments
use waffle.Base.{
  reverse_onto, ℕ, Bool, true, false, not, ◌&&◌, ◌||◌, List, [], ◌∷◌, ◌++◌, eqb, length,
  if◌then◌else◌, Text, ◌==◌, comparable_text,
}

abbrev pub is_empty : Text → Bool
is_empty [] = true
is_empty (b ∷ bs) = false

abbrev pub dot : Text
dot = b'.' ∷ []

abbrev pub dot_dot : Text
dot_dot = b'.' ∷ b'.' ∷ []

abbrev pub is_slash : ℕ → Bool
is_slash b = eqb b b'/'

abbrev pub add_first : ℕ → List Text → List Text
add_first b [] = (b ∷ []) ∷ []
add_first b (s ∷ ss) = (b ∷ s) ∷ ss

-- `strings.Split(t, "/")`
unfoldable pub split_path : Text → List Text
split_path [] = [] ∷ []
split_path (b ∷ bs) = let rest = split_path bs in if is_slash b then [] ∷ rest else add_first b rest

-- The segments with a slash between them.
unfoldable pub join_path : List Text → Text
join_path [] = []
join_path (s ∷ []) = s
join_path (s ∷ t ∷ ss) = s ++ (b'/' ∷ join_path (t ∷ ss))

-- A part after the segments before it, the last one first: an empty part and "." are dropped, ".."
-- takes a segment away, where there is one.
unfoldable pub push_segment : Bool → Text → List Text → List Text
push_segment rooted s stack =
    if is_empty s || s == dot
    then stack
    else (if s == dot_dot
        then elim stack [
          | [] ↦ if rooted then [] else dot_dot ∷ []
          | top ∷ below ↦ if top == dot_dot then dot_dot ∷ top ∷ below else below
        ]
        else s ∷ stack)

unfoldable pub resolve : Bool → List Text → List Text → List Text
unfolding push_segment reverse_onto
resolve rooted stack [] = reverse_onto stack []
resolve rooted stack (s ∷ ss) = resolve rooted (push_segment rooted s stack) ss

abbrev pub or_dot : Text → Text
or_dot [] = dot
or_dot (b ∷ bs) = b ∷ bs

-- `path.Clean`
unfoldable pub clean : Text → Text
unfolding split_path join_path resolve
clean [] = dot
clean (b ∷ bs) =
    if is_slash b
    then b'/' ∷ join_path (resolve true [] (split_path bs))
    else or_dot (join_path (resolve false [] (split_path (b ∷ bs))))

-- `strings.TrimPrefix(p, "/")`
abbrev pub trim_slash : Text → Text
trim_slash [] = []
trim_slash (b ∷ bs) = if is_slash b then bs else b ∷ bs

unfoldable pub has_segment : Text → List Text → Bool
has_segment segment [] = false
has_segment segment (s ∷ ss) =
    let rest = has_segment segment ss in if s == segment then true else rest

unfoldable pub path_has_segment : Text → Text → Bool
unfolding clean split_path has_segment
path_has_segment p segment =
    if is_empty segment then false else has_segment segment (split_path (trim_slash (clean p)))
