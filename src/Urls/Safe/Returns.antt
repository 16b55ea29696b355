-- ===== src/Urls/Safe/Returns.antt =====
-- The paths that SafeReturn lets through.
use waffle.Base.{
  ℕ, ◌≡◌, ◌∙◌, sym, ap, refl, true, false, not, ◌&&◌, Option, List, [], ◌∷◌, ◌++◌, All, eqb, Text,
  ◌==◌, comparable_text, text_eq, has_prefix, arith, Bool-cases, inl, inr,
}
use waffle.Urls.Spaces.{trim_space}
use waffle.Urls.Paths.{join_path, is_empty, clean, has_segment, path_has_segment}
use waffle.Urls.Paths.Segments.{
  join_path-All, path_of, IsNamed, IsSegment, clean-path_of, names-IsSegment,
  path_has_segment-path_of,
}
use waffle.Urls.Safe.{
  Url, contains_byte, slash, is_refused, is_excluded, is_foreign, safe_return_excluding,
}

-- Neither CR, nor LF, nor a backslash.
abbrev pub IsPlain : ℕ → Type 0
IsPlain b = (eqb b b'\r' ≡ false) × (eqb b b'\n' ≡ false) × (eqb b b'\\' ≡ false)

-- The path is neither the excluded one nor that with a query.
abbrev pub NotExcluded : Text → Text → Type 0
NotExcluded path ex = ((path == ex) ≡ false) × (has_prefix path (ex ++ (b'?' ∷ [])) ≡ false)

-- A path from the root: its segments are plain, none is the bad one, and it is not excluded.
abbrev pub IsSafe : Text → List Text → Text → Type 0
IsSafe bad_id excluded path =
    (ss : List Text) × (path ≡ path_of ss)
    × All (IsNamed IsPlain) ss
    × (is_empty bad_id ≡ false → has_segment bad_id ss ≡ false)
    × All (NotExcluded path) excluded

contains_byte-none : (c : ℕ) (t : Text) → All (λ b. eqb b c ≡ false) t → contains_byte c t ≡ false
unfolding contains_byte
contains_byte-none c [] h = refl
contains_byte-none c (b ∷ t) (h, hs) = rw (h, contains_byte-none c t hs) refl

All-map :
    {A : Type 0} (P Q : A → Type 0) → ((a : A) → P a → Q a) → (xs : List A) → All P xs → All Q xs
All-map P Q f [] h = tt
All-map P Q f (x ∷ xs) (h, hs) = (f x h, All-map P Q f xs hs)

not_excluded_lem :
    (path : Text) (excluded : List Text)
    → All (NotExcluded path) excluded
    → is_excluded path excluded ≡ false
unfolding is_excluded
not_excluded_lem path [] h = refl
not_excluded_lem path (ex ∷ excluded) ((e, f), hs) = rw (e, f) (not_excluded_lem path excluded hs)

second_lem :
    (ss : List Text) → All (IsNamed IsPlain) ss → has_prefix (path_of ss) (b'/' ∷ b'/' ∷ []) ≡ false
unfolding has_prefix join_path
second_lem [] h = refl
second_lem ([] ∷ ss) h = cc
second_lem ((b ∷ s) ∷ []) ((((e, d, (n, ns)), p), hs)) = ground arith
second_lem ((b ∷ s) ∷ t ∷ ss) ((((e, d, (n, ns)), p), hs)) = ground arith

not_refused_lem : (ss : List Text) → All (IsNamed IsPlain) ss → is_refused (path_of ss) ≡ false
unfolding is_refused has_prefix
not_refused_lem ss h =
    let plain : All IsPlain (path_of ss) =
      ((refl, refl, refl), join_path-All IsPlain ss (refl, refl, refl) h) in
    let cr =
      contains_byte-none b'\r' (path_of ss) (All-map IsPlain _ (λ b k. k.0) (path_of ss) plain) in
    let lf =
      contains_byte-none b'\n' (path_of ss) (All-map IsPlain _ (λ b k. k.1) (path_of ss) plain) in
    let bs =
      contains_byte-none b'\\' (path_of ss) (All-map IsPlain _ (λ b k. k.2) (path_of ss) plain) in
    rw (cr, lf, bs, second_lem ss h) refl

root_segments :
    (segment : Text) → is_empty segment ≡ false → path_has_segment (path_of []) segment ≡ false
unfolding path_has_segment text_eq
root_segments [] h = refl
root_segments (b ∷ bs) h = refl

module _ (parse : Text → Option Url) (bad_id : Text) (excluded : List Text) where
  root : (ss : List Text) → has_prefix (path_of ss) slash ≡ true
  unfolding has_prefix
  root ss = refl

  lookup_bad :
      (ss : List Text)
      → All IsSegment ss
      → is_empty bad_id ≡ false
      → has_segment bad_id ss ≡ false
      → path_has_segment (path_of ss) bad_id ≡ false
  lookup_bad [] named e h = root_segments bad_id e
  lookup_bad (s ∷ ss) named e h = path_has_segment-path_of s ss bad_id named e ∙ h

  no_bad :
      (ss : List Text)
      → All IsSegment ss
      → (is_empty bad_id ≡ false → has_segment bad_id ss ≡ false)
      → not (is_empty bad_id) && path_has_segment (path_of ss) bad_id ≡ false
  no_bad ss named h = elim (Bool-cases (is_empty bad_id)) [
    | inl e ↦ rw e refl
    | inr e ↦ rw e (lookup_bad ss named e (h e))
  ]

  -- A safe path without white space at its ends, which `url.Parse` reads as a path, is returned as
  -- it is.
  pub safe_return_excluding-same :
      (path fallback : Text)
      → IsSafe bad_id excluded path
      → trim_space path ≡ path
      → is_foreign parse path ≡ false
      → safe_return_excluding parse path bad_id fallback excluded ≡ path
  unfolding safe_return_excluding
  safe_return_excluding-same path fallback (ss, eq, named, bad, ex) trim own =
      let seg = names-IsSegment IsPlain ss named in
      let cleaned : clean path ≡ path = ap clean eq ∙ (clean-path_of ss seg ∙ sym eq) in
      let kept : is_refused path ≡ false = rw eq (not_refused_lem ss named) in
      let rooted : has_prefix path slash ≡ true = rw eq (root ss) in
      let free : not (is_empty bad_id) && path_has_segment path bad_id ≡ false =
        rw eq (no_bad ss seg bad) in
      rw (trim, cleaned, kept, rooted, own, free, not_excluded_lem path excluded ex) refl
