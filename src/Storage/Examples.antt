-- ===== src/Storage/Examples.antt =====
-- Objects under paths that mean the same.
use waffle.Base.{
  ◌≡◌, refl, true, false, none, some, [], ◌∷◌, inl, inr, ◌==◌, pos, if◌then◌else◌, Text, text_eq,
  comparable_text, contains_text, has_prefix, lookup, insert, erase,
}
use waffle.Urls.Paths.{clean}
use waffle.Storage.Names.{normalize_path, is_valid_path, has_zero}
use waffle.Storage.{
  object_not_found, MemoryObject, Storage, PutOptions, new_storage, put_object, get_bytes,
  copy_object, move_object, delete_object, delete_many, delete_all, count_objects,
}
use waffle.Storage.Moves.{get_bytes-move_object}

program : Unit {0}
unfolding new_storage put_object get_bytes copy_object move_object delete_object delete_many
    delete_all count_objects normalize_path is_valid_path has_zero lookup insert erase text_eq
    contains_text has_prefix clean
program = tt

-- "/a//b/" and "a/b"
abbrev given : Text
given = b'/' ∷ b'a' ∷ b'/' ∷ b'/' ∷ b'b' ∷ b'/' ∷ []

abbrev name : Text
name = b'a' ∷ b'/' ∷ b'b' ∷ []

normal : normalize_path given ≡ name
unfolding program
normal = refl

-- "\a" becomes "/a", and that "a".
backslash : normalize_path (b'\\' ∷ b'a' ∷ []) ≡ b'/' ∷ b'a' ∷ []
unfolding program
backslash = refl

slash : normalize_path (b'/' ∷ b'a' ∷ []) ≡ b'a' ∷ []
unfolding program
slash = refl

-- An empty path becomes ".", which is valid.
empty : is_valid_path (normalize_path []) ≡ true
unfolding program
empty = refl

abbrev options : PutOptions
options = record { content_type = []; metadata = []; if_not_exists = true }

abbrev store : Storage
store =
    (put_object (λ path content. path) false (pos 1) given (some (b'x' ∷ [])) options
      (new_storage [])).0

there : get_bytes false name store ≡ inl (b'x' ∷ [])
unfolding program
there = refl

-- A move of an object to its own path.
lost : get_bytes false name (move_object false (pos 2) given name store).0 ≡ inr object_not_found
unfolding program
lost = refl

deleted : (delete_many false (name ∷ given ∷ []) store).1 ≡ some 1
unfolding program
deleted = refl

get_bytes-move_object_example :
    let moved = move_object false (pos 2) given (b'c' ∷ []) store in
    (lookup (normalize_path given) store.objects ≡ none → moved ≡ (store, some object_not_found))
    × ((o : MemoryObject)
        → lookup (normalize_path given) store.objects ≡ some o
        → (moved.1 ≡ none)
          × (get_bytes false name moved.0 ≡ (
              if normalize_path given == normalize_path name
              then inr object_not_found
              else (if normalize_path (b'c' ∷ []) == normalize_path name
                  then inl o.content
                  else get_bytes false name store))))
get_bytes-move_object_example = get_bytes-move_object (pos 2) given (b'c' ∷ []) name store
