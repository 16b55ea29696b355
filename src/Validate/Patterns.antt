-- ===== src/Validate/Patterns.antt =====
-- Go's regexp for the patterns of pantry/validate/validate.go, all of which match whole texts of
-- bytes: the syntax, what a pattern describes, and a matcher that reads a text from the left.
use mathlib.Core.Path.{subst}
use waffle.Base.{
  ℕ, ◌≡◌, refl, ap, sym, ◌∙◌, ◌↔◌, ◌⊎◌, inl, inr, Bool, true, false, ◌&&◌, ◌||◌, List, [], ◌∷◌,
  ◌++◌, leb, Text, arith, All, if◌then◌else◌, Bool-cases,
}

-- A class of bytes is a list of ranges.
abbrev pub Class : Type 0
Class = List (ℕ × ℕ)

abbrev pub in_class : Class → ℕ → Bool
in_class [] b = false
in_class ((low, high) ∷ c) b = (leb low b && leb b high) || in_class c b

-- `nothing` matches no text and `blank` the empty one.
pub data Pattern : Type 0 where
  nothing blank : Pattern
  byte : Class → Pattern
  followed : Pattern → Pattern → Pattern
  either : Pattern → Pattern → Pattern
  repeated : Pattern → Pattern

abbrev pub concat : List Text → Text
concat [] = []
concat (t ∷ ts) = t ++ concat ts

-- The texts that a pattern describes.
unfoldable pub Describes : Pattern → Text → Type 0
Describes nothing s = ⊥
Describes blank s = s ≡ []
Describes (byte c) s = (b : ℕ) × (s ≡ b ∷ []) × (in_class c b ≡ true)
Describes (followed p q) s = (t : Text) × (u : Text) × (s ≡ t ++ u) × Describes p t × Describes q u
Describes (either p q) s = Describes p s ⊎ Describes q s
Describes (repeated p) s = (ts : List Text) × (s ≡ concat ts) × All (Describes p) ts

unfoldable pub matches_empty : Pattern → Bool
matches_empty nothing = false
matches_empty blank = true
matches_empty (byte c) = false
matches_empty (followed p q) = matches_empty p && matches_empty q
matches_empty (either p q) = matches_empty p || matches_empty q
matches_empty (repeated p) = true

-- What is left to match once the byte is read.
unfoldable pub after : ℕ → Pattern → Pattern
unfolding matches_empty
after b nothing = nothing
after b blank = nothing
after b (byte c) = if in_class c b then blank else nothing
after b (followed p q) =
    let first = followed (after b p) q in
    let second = after b q in if matches_empty p then either first second else first
after b (either p q) = either (after b p) (after b q)
after b (repeated p) = followed (after b p) (repeated p)

-- `MatchString`
unfoldable pub matches : Pattern → Text → Bool
unfolding after
matches p [] = matches_empty p
matches p (b ∷ s) = matches (after b p) s

empty-append : (t u : Text) → [] ≡ t ++ u → (t ≡ []) × (u ≡ [])
empty-append [] u e = (refl, sym e)
empty-append (x ∷ t) u e = cc

both : (a b : Bool) → a && b ≡ true → (a ≡ true) × (b ≡ true)
both a b h = ground arith

matches_empty_lem : (p : Pattern) → (matches_empty p ≡ true) ↔ Describes p []
unfolding matches_empty Describes
matches_empty_lem nothing = (λ h. cc, λ h. absurd h)
matches_empty_lem blank = (λ h. refl, λ h. refl)
matches_empty_lem (byte c) = (λ h. cc, λ (b, e, h). cc)
matches_empty_lem (followed p q) = (
  λ h.
      let (first, second) = both (matches_empty p) (matches_empty q) h in
      ([], [], refl, (matches_empty_lem p).0 first, (matches_empty_lem q).0 second),
  λ (t, u, e, h, k).
      let (no_t, no_u) = empty-append t u e in
      let first : matches_empty p ≡ true = (matches_empty_lem p).1 (subst (Describes p) no_t h) in
      let second : matches_empty q ≡ true = (matches_empty_lem q).1 (subst (Describes q) no_u k) in
      rw (first, second) refl,
)
matches_empty_lem (either p q) = (
  λ h. elim (Bool-cases (matches_empty p)) [
    | inl e ↦ inl ((matches_empty_lem p).0 e)
    | inr e ↦ inr ((matches_empty_lem q).0 (rw e at h))
  ],
  λ h. ground (arith, (matches_empty_lem p).1, (matches_empty_lem q).1),
)
matches_empty_lem (repeated p) = (λ h. ([], refl, tt), λ h. refl)

after_sound : (p : Pattern) (b : ℕ) (s : Text) → Describes (after b p) s → Describes p (b ∷ s)
unfolding after Describes
after_sound nothing b s h = h
after_sound blank b s h = absurd h
after_sound (byte c) b s h = elim (Bool-cases (in_class c b)) [
  | inl e ↦ (b, ap (λ r. b ∷ r) (rw (e, after) at h), e)
  | inr e ↦ absurd (rw (e, after) at h)
]
after_sound (followed p q) b s h = elim (Bool-cases (matches_empty p)) [
  | inl e ↦
      let h' : Describes (either (followed (after b p) q) (after b q)) s = rw e at h in
      elim h' [
        | inl (t, u, e', k, k') ↦ (b ∷ t, u, ap (λ r. b ∷ r) e', after_sound p b t k, k')
        | inr k ↦ ([], b ∷ s, refl, (matches_empty_lem p).0 e, after_sound q b s k)
      ]
  | inr e ↦
      let (t, u, e', k, k') : Describes (followed (after b p) q) s = rw e at h in
      (b ∷ t, u, ap (λ r. b ∷ r) e', after_sound p b t k, k')
]
after_sound (either p q) b s (inl h) = inl (after_sound p b s h)
after_sound (either p q) b s (inr h) = inr (after_sound q b s h)
after_sound (repeated p) b s (t, u, e, h, (ts, e', k)) =
    ((b ∷ t) ∷ ts, ap (λ r. b ∷ r) (e ∙ ap (λ r. t ++ r) e'), (after_sound p b t h, k))

parts : (b d : ℕ) (s t : Text) → b ∷ s ≡ d ∷ t → (d ≡ b) × (s ≡ t)
parts b d s t e = (cc, cc)

after_complete : (p : Pattern) (b : ℕ) (s : Text) → Describes p (b ∷ s) → Describes (after b p) s
unfolding after Describes
after_complete nothing b s h = h
after_complete blank b s h = cc
after_complete (byte c) b s (d, e, h) =
    let (same, rest) = parts b d s [] e in
    rw (subst (λ x. in_class c x ≡ true) same h, Describes) rest
after_complete (followed p q) b s ([], u, e, h, k) =
    rw ((matches_empty_lem p).1 h, Describes)
      (inr (after_complete q b s (subst (Describes q) (sym e) k)))
after_complete (followed p q) b s (d ∷ t, u, e, h, k) =
    let (same, rest) = parts b d s (t ++ u) e in
    let h' = after_complete p b t (subst (λ x. Describes p (x ∷ t)) same h) in
    let first : Describes (followed (after b p) q) s = (t, u, rest, h', k) in
    elim (Bool-cases (matches_empty p)) [
      | inl m ↦ rw (m, Describes) (inl first)
      | inr m ↦ rw (m, Describes) first
    ]
after_complete (either p q) b s (inl h) = inl (after_complete p b s h)
after_complete (either p q) b s (inr h) = inr (after_complete q b s h)
after_complete (repeated p) b s ([], e, h) = cc
after_complete (repeated p) b s ([] ∷ ts, e, (h, k)) = after_complete (repeated p) b s (ts, e, k)
after_complete (repeated p) b s ((d ∷ t) ∷ ts, e, (h, k)) =
    let (same, rest) = parts b d s (t ++ concat ts) e in
    (
      t,
      concat ts,
      rest,
      after_complete p b t (subst (λ x. Describes p (x ∷ t)) same h),
      (ts, refl, k),
    )

-- The matcher accepts a text just if the pattern describes it.
pub matches_lem : (p : Pattern) (s : Text) → (matches p s ≡ true) ↔ Describes p s
unfolding matches
matches_lem p [] = matches_empty_lem p
matches_lem p (b ∷ s) = (
  λ h. after_sound p b s ((matches_lem (after b p) s).0 h),
  λ h. (matches_lem (after b p) s).1 (after_complete p b s h),
)
