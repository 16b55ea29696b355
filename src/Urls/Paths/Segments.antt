-- ===== src/Urls/Paths/Segments.antt =====
-- Cleaned paths: their segments.
use waffle.Base.{
  reverse_onto, ℕ, ◌≡◌, ◌∙◌, ap, refl, Bool, true, false, ◌||◌, List, [], ◌∷◌, ◌++◌, All, Text,
  ◌==◌, comparable_text, Bool-cases, inl, inr,
}
use waffle.Urls.Paths.{
  is_empty, dot, dot_dot, is_slash, add_first, split_path, join_path, push_segment, resolve, clean,
  trim_slash, has_segment, path_has_segment,
}

-- No byte is a slash.
abbrev pub NoSlash : Text → Type 0
NoSlash = All (λ b. is_slash b ≡ false)

-- A part that stands for itself: it is not empty, not ".", not "..", and has no slash.
abbrev pub IsSegment : Text → Type 0
IsSegment s = (is_empty s || s == dot ≡ false) × ((s == dot_dot) ≡ false) × NoSlash s

resolve_segments :
    (rooted : Bool) (stack ss : List Text)
    → All IsSegment ss
    → resolve rooted stack ss ≡ reverse_onto stack ss
unfolding resolve push_segment reverse_onto
resolve_segments rooted stack [] h = refl
resolve_segments rooted stack (s ∷ ss) ((plain, up, slash), hs) =
    rw (plain, up) (resolve_segments rooted (s ∷ stack) ss hs)

split_append : (s t : Text) → NoSlash s → split_path (s ++ (b'/' ∷ t)) ≡ s ∷ split_path t
unfolding split_path
split_append [] t h = refl
split_append (b ∷ s) t (h, hs) = rw (h, split_append s t hs) refl

split_segment : (s : Text) → NoSlash s → split_path s ≡ s ∷ []
unfolding split_path
split_segment [] h = refl
split_segment (b ∷ s) (h, hs) = rw (h, split_segment s hs) refl

split_path-join_path :
    (s : Text) (ss : List Text) → All IsSegment (s ∷ ss) → split_path (join_path (s ∷ ss)) ≡ s ∷ ss
unfolding join_path
split_path-join_path s [] ((_, _, h), hs) = split_segment s h
split_path-join_path s (t ∷ ss) ((_, _, h), hs) =
    split_append s (join_path (t ∷ ss)) h ∙ ap (λ r. s ∷ r) (split_path-join_path t ss hs)

-- The path of some segments.
abbrev pub path_of : List Text → Text
path_of ss = b'/' ∷ join_path ss

resolve_split :
    (ss : List Text) → All IsSegment ss → resolve true [] (split_path (join_path ss)) ≡ ss
unfolding resolve split_path join_path push_segment reverse_onto
resolve_split [] h = refl
resolve_split (s ∷ ss) h =
    ap (resolve true []) (split_path-join_path s ss h) ∙ resolve_segments true [] (s ∷ ss) h

pub clean-path_of : (ss : List Text) → All IsSegment ss → clean (path_of ss) ≡ path_of ss
unfolding clean
clean-path_of ss h = ap path_of (resolve_split ss h)

module _ {A : Type 0} (P : A → Type 0) where
  reverse_onto-All : (xs acc : List A) → All P xs → All P acc → All P (reverse_onto xs acc)
  unfolding reverse_onto
  reverse_onto-All [] acc h k = k
  reverse_onto-All (x ∷ xs) acc (h, hs) k = reverse_onto-All xs (x ∷ acc) hs (h, k)

  append-All : (xs ys : List A) → All P xs → All P ys → All P (xs ++ ys)
  append-All [] ys h k = k
  append-All (x ∷ xs) ys (h, hs) k = (h, append-All xs ys hs k)

-- The segments of a rooted path are the parts that stand for themselves.
module _ (P : ℕ → Type 0) where
  abbrev pub IsPart : Text → Type 0
  IsPart s = NoSlash s × All P s

  abbrev pub IsNamed : Text → Type 0
  IsNamed s = IsSegment s × All P s

  push_segment-IsNamed :
      (s : Text) (stack : List Text)
      → IsPart s
      → All IsNamed stack
      → All IsNamed (push_segment true s stack)
  unfolding push_segment
  push_segment-IsNamed s [] (slash, h) k = elim (Bool-cases (is_empty s || s == dot)) [
    | inl e ↦ rw e k
    | inr e ↦ elim (Bool-cases (s == dot_dot)) [
      | inl d ↦ rw (e, d) k
      | inr d ↦ rw (e, d) (((e, d, slash), h), k)
    ]
  ]
  push_segment-IsNamed s (top ∷ below) (slash, h) (((f, g, ns), t), k) =
      elim (Bool-cases (is_empty s || s == dot)) [
        | inl e ↦ rw e (((f, g, ns), t), k)
        | inr e ↦ elim (Bool-cases (s == dot_dot)) [
          | inl d ↦ rw (e, d, g) k
          | inr d ↦ rw (e, d) (((e, d, slash), h), (((f, g, ns), t), k))
        ]
      ]

  resolve-IsNamed :
      (stack ss : List Text)
      → All IsPart ss
      → All IsNamed stack
      → All IsNamed (resolve true stack ss)
  unfolding resolve
  resolve-IsNamed stack [] h k = reverse_onto-All IsNamed stack [] k tt
  resolve-IsNamed stack (s ∷ ss) (h, hs) k =
      resolve-IsNamed (push_segment true s stack) ss hs (push_segment-IsNamed s stack h k)

  add_first-IsPart :
      (b : ℕ) (ss : List Text)
      → is_slash b ≡ false
      → P b
      → All IsPart ss
      → All IsPart (add_first b ss)
  add_first-IsPart b [] e p h = (((e, tt), (p, tt)), tt)
  add_first-IsPart b (s ∷ ss) e p ((slash, h), hs) = (((e, slash), (p, h)), hs)

  split_path-IsPart : (t : Text) → All P t → All IsPart (split_path t)
  unfolding split_path
  split_path-IsPart [] h = ((tt, tt), tt)
  split_path-IsPart (b ∷ t) (h, hs) = elim (Bool-cases (is_slash b)) [
    | inl e ↦ rw e ((tt, tt), split_path-IsPart t hs)
    | inr e ↦ rw e (add_first-IsPart b (split_path t) e h (split_path-IsPart t hs))
  ]

  pub join_path-All : (ss : List Text) → P b'/' → All IsNamed ss → All P (join_path ss)
  unfolding join_path
  join_path-All [] p h = tt
  join_path-All (s ∷ []) p ((_, h), hs) = h
  join_path-All (s ∷ t ∷ ss) p ((_, h), hs) =
      append-All P s (path_of (t ∷ ss)) h (p, join_path-All (t ∷ ss) p hs)

  -- A rooted path cleaned.
  pub clean_rooted :
      (t : Text) → All P t → (ss : List Text) × (clean (b'/' ∷ t) ≡ path_of ss) × All IsNamed ss
  unfolding clean
  clean_rooted t h =
      let ss = resolve true [] (split_path t) in
      (ss, refl, resolve-IsNamed [] (split_path t) (split_path-IsPart t h) tt)

-- What is left of the bytes is that of each segment.
pub names-IsSegment : (P : ℕ → Type 0) (ss : List Text) → All (IsNamed P) ss → All IsSegment ss
names-IsSegment P [] h = tt
names-IsSegment P (s ∷ ss) (h, hs) = (h.0, names-IsSegment P ss hs)

-- pathHasSegment asks for a segment of the cleaned path; the root alone has the empty one.
pub path_has_segment-path_of :
    (s : Text) (ss : List Text) (segment : Text)
    → All IsSegment (s ∷ ss)
    → is_empty segment ≡ false
    → path_has_segment (path_of (s ∷ ss)) segment ≡ has_segment segment (s ∷ ss)
unfolding path_has_segment
path_has_segment-path_of s ss segment h e = rw e (
    ap (λ p. has_segment segment (split_path (trim_slash p))) (clean-path_of (s ∷ ss) h)
    ∙ ap (has_segment segment) (split_path-join_path s ss h))
