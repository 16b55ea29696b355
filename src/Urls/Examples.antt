-- ===== src/Urls/Examples.antt =====
-- Paths, cleaned and checked.
use waffle.Base.{◌≡◌, refl, false, Option, some, [], ◌∷◌, ◌++◌, Text, text_eq, has_prefix}
use waffle.Urls.Spaces.{trim_space}
use waffle.Urls.Paths.{clean, has_segment}
use waffle.Urls.Safe.{
  Url, safe_return, safe_return_excluding, is_refused, is_excluded, is_foreign, contains_byte,
}

program : Unit {0}
unfolding clean trim_space safe_return safe_return_excluding is_excluded is_refused is_foreign
    contains_byte has_prefix has_segment text_eq
program = tt

-- A parser that takes every text for a path.
abbrev parse : Text → Option Url
parse t = some record { scheme = []; host = []; has_user = false; path = t; raw_query = [] }

-- "/a/../b//c/." and "/b/c"
abbrev long : Text
long = b'/' ∷ b'a' ∷ b'/' ∷ b'.' ∷ b'.' ∷ b'/' ∷ b'b' ∷ b'/' ∷ b'/' ∷ b'c' ∷ b'/' ∷ b'.' ∷ []

abbrev short : Text
short = b'/' ∷ b'b' ∷ b'/' ∷ b'c' ∷ []

cleaned : clean long ≡ short
unfolding program
cleaned = refl

-- "../../a/.." is "../..".
relative :
    clean (b'.' ∷ b'.' ∷ b'/' ∷ b'.' ∷ b'.' ∷ b'/' ∷ b'a' ∷ b'/' ∷ b'.' ∷ b'.' ∷ [])
    ≡ b'.' ∷ b'.' ∷ b'/' ∷ b'.' ∷ b'.' ∷ []
unfolding program
relative = refl

-- " /logout\n" is refused; "/logout/?a" is not, since the excluded path has no slash at its end.
abbrev logout : Text
logout = b'/' ∷ b'l' ∷ b'o' ∷ b'g' ∷ b'o' ∷ b'u' ∷ b't' ∷ []

refused : safe_return parse (b' ' ∷ logout ++ (b'\n' ∷ [])) [] short ≡ short
unfolding program
refused = refl

let_through :
    safe_return parse (logout ++ (b'/' ∷ b'?' ∷ b'a' ∷ [])) [] short
    ≡ logout ++ (b'/' ∷ b'?' ∷ b'a' ∷ [])
unfolding program
let_through = refl
