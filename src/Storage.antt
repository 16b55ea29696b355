-- ===== src/Storage.antt =====
-- The memory store of objects: pantry/storage/memory.go, with NormalizePath and ValidatePath of
-- pantry/storage/storage.go. A context is whether it is over, a reader what `io.ReadAll` reads.
pub mod Names
pub mod Moves
mod Examples
use waffle.Base.{
  ℕ, zero, suc, ◌+◌, Bool, true, false, ◌&&◌, ◌||◌, Option, none, some, List, [], ◌∷◌, ◌++◌, ◌⊎◌,
  inl, inr, ℤ, eqb, length, if◌then◌else◌, Text, comparable_text, contains_text, Map, lookup,
  insert, erase,
}
use waffle.Storage.Names.{normalize_path, is_valid_path}

pub data StorageError : Type 0 where
  context_over object_not_found already_exists invalid_path read_failed : StorageError

pub record MemoryObject : Type 0 where
  pub content : Text
  pub content_type : Text
  pub metadata : Map Text Text
  pub mod_time : ℤ

pub record Storage : Type 0 where
  pub objects : Map Text MemoryObject
  pub base_url : Text

-- The options that the store reads; nil options are the empty ones.
pub record PutOptions : Type 0 where
  pub content_type : Text
  pub metadata : Map Text Text
  pub if_not_exists : Bool

abbrev pub is_some : {A : Type 0} → Option A → Bool
is_some none = false
is_some (some a) = true

unfoldable pub new_storage : Text → Storage
new_storage base_url = record { objects = []; base_url = base_url }

-- `detect` is DetectContentType.
unfoldable pub put_object :
    (Text → Text → Text)
    → Bool
    → ℤ
    → Text
    → Option Text
    → PutOptions
    → Storage
    → Storage × Option StorageError
unfolding normalize_path is_valid_path
put_object detect over now path reader opts m =
    let name = normalize_path path in
    if over
    then (m, some context_over)
    else (if is_valid_path name
        then (if opts.if_not_exists && is_some (lookup name m.objects)
            then (m, some already_exists)
            else elim reader [
              | none ↦ (m, some read_failed)
              | some content ↦ (
                record m {
                  objects =
                      insert name
                        (record {
                          content = content;
                          content_type =
                              if eqb (length opts.content_type) 0
                              then detect name content
                              else opts.content_type;
                          metadata = opts.metadata;
                          mod_time = now;
                        })
                        m.objects;
                },
                none,
              )
            ])
        else (m, some invalid_path))

unfoldable pub get_bytes : Bool → Text → Storage → Text ⊎ StorageError
unfolding normalize_path
get_bytes over path m =
    if over then inr context_over else elim (lookup (normalize_path path) m.objects) [
      | none ↦ inr object_not_found
      | some o ↦ inl o.content
    ]

pub record ObjectInfo : Type 0 where
  pub path : Text
  pub size : ℕ
  pub content_type : Text
  pub last_modified : ℤ
  pub metadata : Map Text Text

unfoldable pub head : Bool → Text → Storage → ObjectInfo ⊎ StorageError
unfolding normalize_path
head over path m =
    if over then inr context_over else elim (lookup (normalize_path path) m.objects) [
      | none ↦ inr object_not_found
      | some o ↦ inl record {
        path = normalize_path path;
        size = length o.content;
        content_type = o.content_type;
        last_modified = o.mod_time;
        metadata = o.metadata;
      }
    ]

unfoldable pub delete_object : Bool → Text → Storage → Storage × Option StorageError
unfolding normalize_path
delete_object over path m =
    if over then (m, some context_over) else elim (lookup (normalize_path path) m.objects) [
      | none ↦ (m, some object_not_found)
      | some o ↦ (record m { objects = erase (normalize_path path) m.objects }, none)
    ]

-- The loop of `DeleteMany` with the number of objects that it has deleted.
unfoldable pub delete_all : List Text → ℕ → Map Text MemoryObject → Map Text MemoryObject × ℕ
unfolding normalize_path
delete_all [] deleted objects = (objects, deleted)
delete_all (path ∷ paths) deleted objects = elim (lookup (normalize_path path) objects) [
  | none ↦ delete_all paths deleted objects
  | some o ↦ delete_all paths (suc deleted) (erase (normalize_path path) objects)
]

-- The number of deleted objects, or none with an error.
unfoldable pub delete_many : Bool → List Text → Storage → Storage × Option ℕ
unfolding delete_all
delete_many over paths m =
    if over
    then (m, none)
    else let (objects, deleted) = delete_all paths 0 m.objects in
      (record m { objects = objects }, some deleted)

-- None with an error.
unfoldable pub exists_object : Bool → Text → Storage → Option Bool
unfolding normalize_path
exists_object over path m =
    if over then none else some (is_some (lookup (normalize_path path) m.objects))

unfoldable pub copy_object : Bool → ℤ → Text → Text → Storage → Storage × Option StorageError
unfolding normalize_path
copy_object over now src dst m =
    if over then (m, some context_over) else elim (lookup (normalize_path src) m.objects) [
      | none ↦ (m, some object_not_found)
      | some o ↦ (
        record m { objects = insert (normalize_path dst) (record o { mod_time = now }) m.objects },
        none,
      )
    ]

-- What `Move` does when `Copy` has returned.
abbrev pub erase_source : Text → Storage × Option StorageError → Storage × Option StorageError
erase_source name (m, none) = (record m { objects = erase name m.objects }, none)
erase_source name (m, some e) = (m, some e)

unfoldable pub move_object : Bool → ℤ → Text → Text → Storage → Storage × Option StorageError
unfolding copy_object normalize_path
move_object over now src dst m = erase_source (normalize_path src) (copy_object over now src dst m)

unfoldable pub object_url : Text → Storage → Text
unfolding normalize_path
object_url path m =
    if eqb (length m.base_url) 0 then [] else m.base_url ++ (b'/' ∷ normalize_path path)

unfoldable pub clear_objects : Storage → Storage
clear_objects m = record m { objects = [] }

unfoldable pub count_objects : Storage → ℕ
count_objects m = length m.objects
