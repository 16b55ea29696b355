-- ===== src/Storage/Moves.antt =====
-- The objects after a move, and the number of objects that are deleted.
use mathlib.Core.Path.{subst}
use waffle.Base.{
  ℕ, suc, ◌+◌, ◌≡◌, ◌∙◌, sym, ap, refl, ◌⊎◌, false, Option, none, some, List, [], ◌∷◌, inl, inr, ℤ,
  length, if◌then◌else◌, Text, ◌==◌, comparable_text, Map, lookup, insert, erase, IsMap,
  lookup-insert, lookup-erase, erase-IsMap, arith, Bool-cases, Option-cases,
}
use waffle.Storage.Names.{normalize_path}
use waffle.Storage.{
  StorageError, object_not_found, MemoryObject, Storage, get_bytes, copy_object, move_object,
  erase_source, delete_all,
}

module _ (now : ℤ) (src dst other : Text) (m : Storage) where
  abbrev after_move : MemoryObject → Map Text MemoryObject
  after_move o =
      erase (normalize_path src)
        (insert (normalize_path dst) (record o { mod_time = now }) m.objects)

  move_found :
      (o : MemoryObject)
      → lookup (normalize_path src) m.objects ≡ some o
      → move_object false now src dst m ≡ (record m { objects = after_move o }, none)
  unfolding move_object copy_object
  move_found o e =
      let copied : copy_object false now src dst m ≡ (
        record m { objects = insert (normalize_path dst) (record o { mod_time = now }) m.objects },
        none,
      ) =
        rw e refl in
      ap (erase_source (normalize_path src)) copied

  move_missing :
      lookup (normalize_path src) m.objects ≡ none
      → move_object false now src dst m ≡ (m, some object_not_found)
  unfolding move_object copy_object
  move_missing e =
      let copied : copy_object false now src dst m ≡ (m, some object_not_found) = rw e refl in
      ap (erase_source (normalize_path src)) copied

  lookup-after_move :
      (k : Text) (o : MemoryObject)
      → lookup k (after_move o) ≡ (
          if normalize_path src == k
          then none
          else (if normalize_path dst == k
              then some (record o { mod_time = now })
              else lookup k m.objects))
  lookup-after_move k o =
      rw
        (
          lookup-erase (normalize_path src) k
              (insert (normalize_path dst) (record o { mod_time = now }) m.objects),
          lookup-insert (normalize_path dst) k (record o { mod_time = now }) m.objects,
        )
        refl

  abbrev content_of : Option MemoryObject → Text ⊎ StorageError
  content_of none = inr object_not_found
  content_of (some o) = inl o.content

  get_bytes_lem :
      (s : Storage) → get_bytes false other s ≡ content_of (lookup (normalize_path other) s.objects)
  unfolding get_bytes
  get_bytes_lem s = elim (Option-cases (lookup (normalize_path other) s.objects)) [
    | inl e ↦ rw e refl
    | inr (o, e) ↦ rw e refl
  ]

  found_after :
      (o : MemoryObject)
      → get_bytes false other (record m { objects = after_move o }) ≡ (
          if normalize_path src == normalize_path other
          then inr object_not_found
          else (if normalize_path dst == normalize_path other
              then inl o.content
              else get_bytes false other m))
  found_after o =
      get_bytes_lem (record m { objects = after_move o })
      ∙ (ap content_of (lookup-after_move (normalize_path other) o)
          ∙ elim (Bool-cases (normalize_path src == normalize_path other)) [
            | inl s ↦ rw s refl
            | inr s ↦ elim (Bool-cases (normalize_path dst == normalize_path other)) [
              | inl d ↦ rw (s, d) refl
              | inr d ↦ rw (s, d) (sym (get_bytes_lem m))
            ]
          ])

  -- Move of an object that is there: it is found at its new path, and no longer at its old one, so
  -- that a move to the same path loses it; at other paths is what was there. Where there is no
  -- object, Move returns ErrNotFound and changes nothing.
  pub get_bytes-move_object :
      let moved = move_object false now src dst m in
      let from = normalize_path src in
      let to = normalize_path dst in
      (lookup from m.objects ≡ none → moved ≡ (m, some object_not_found))
      × ((o : MemoryObject)
          → lookup from m.objects ≡ some o
          → (moved.1 ≡ none)
            × (get_bytes false other moved.0 ≡ (
                if from == normalize_path other
                then inr object_not_found
                else (if to == normalize_path other
                    then inl o.content
                    else get_bytes false other m))))
  get_bytes-move_object = (move_missing, λ o e. rw (move_found o e) (refl, found_after o))

length-erase-none :
    (k : Text) (m : Map Text MemoryObject) → lookup k m ≡ none → length (erase k m) ≡ length m
unfolding lookup erase
length-erase-none k [] h = refl
length-erase-none k ((j, o) ∷ m) h = ground (arith, length-erase-none k m)

length-erase :
    (k : Text) (o : MemoryObject) (m : Map Text MemoryObject)
    → IsMap m
    → lookup k m ≡ some o
    → length m ≡ suc (length (erase k m))
unfolding lookup erase
length-erase k o [] i h = cc
length-erase k o ((j, p) ∷ m) (i, is) h = elim (Bool-cases (j == k)) [
  | inl e ↦
      let gone : lookup k m ≡ none =
        subst (λ n. lookup n m ≡ none) ((comparable_text.equals_iff j k).0 e) i in
      rw e (omega (arith, length-erase-none k m gone))
  | inr e ↦ rw e (omega (arith, length-erase k o m is (rw e at h)))
]

delete_all-count :
    (paths : List Text) (deleted : ℕ) (objects : Map Text MemoryObject)
    → IsMap objects
    → let after = delete_all paths deleted objects in
      length objects + deleted ≡ length after.0 + after.1
unfolding delete_all
delete_all-count [] deleted objects i = refl
delete_all-count (path ∷ paths) deleted objects i =
    elim (Option-cases (lookup (normalize_path path) objects)) [
      | inl e ↦ rw (e, delete_all) (delete_all-count paths deleted objects i)
      | inr (o, e) ↦
          let name = normalize_path path in
          let less = length-erase name o objects i e in
          let rest =
            delete_all-count paths (suc deleted) (erase name objects)
              (erase-IsMap name objects i) in
          rw (e, delete_all) (omega (arith, less, rest))
    ]
