-- ===== src/Audit/Events/Wildcards.antt =====
-- pantry/audit/store.go: what a pattern with a star matches.
use mathlib.Core.List.{append_assoc}
use waffle.Base.{
  suc, ◌+◌, ◌≤◌, ◌≡◌, ◌↔◌, refl, ap, sym, ◌∙◌, true, false, ◌&&◌, Bool-cases, inl, inr, [], ◌∷◌,
  ◌++◌, eqb, length, length-append, append-nil, All, Text, text_eq, text_eq_iff, has_prefix,
  has_suffix, arith, split,
}
use waffle.Audit.Events.{match_parts, match_action}

has_prefix_lem : (s p : Text) → (has_prefix s p ≡ true) ↔ ((t : Text) × (s ≡ p ++ t))
unfolding has_prefix
has_prefix_lem s [] = (λ h. (s, refl), λ h. refl)
has_prefix_lem [] (p ∷ ps) = (λ h. cc, λ (t, e). cc)
has_prefix_lem (x ∷ xs) (p ∷ ps) = (
  λ h.
      let (t, e) = (has_prefix_lem xs ps).0 (ground arith) in
      let same : x ≡ p = ground arith in (t, cc (same, e)),
  λ (t, e).
      let rest : xs ≡ ps ++ t = cc e in
      let same : x ≡ p = cc e in ground (arith, (has_prefix_lem xs ps).1 (t, rest)),
)

has_suffix-append : (t p : Text) → has_suffix (t ++ p) p ≡ true
unfolding has_suffix
has_suffix-append [] [] = rw ((text_eq_iff [] []).1 refl) refl
has_suffix-append [] (x ∷ p) = rw ((text_eq_iff (x ∷ p) (x ∷ p)).1 refl) refl
has_suffix-append (x ∷ t) p = ground (arith, has_suffix-append t p)

suffix_of : (s p : Text) → has_suffix s p ≡ true → (t : Text) × (s ≡ t ++ p)
unfolding has_suffix
suffix_of [] p h = ([], (text_eq_iff [] p).0 h)
suffix_of (x ∷ xs) p h = elim (Bool-cases (text_eq (x ∷ xs) p)) [
  | inl whole ↦ ([], (text_eq_iff (x ∷ xs) p).0 whole)
  | inr part ↦
      let (t, e) = suffix_of xs p (rw (part, has_suffix) at h) in (x ∷ t, ap (λ r. x ∷ r) e)
]

-- A prefix and a suffix that do not overlap leave something between them.
between : (p u v s : Text) → p ++ u ≡ v ++ s → length s ≤ length u → (t : Text) × (u ≡ t ++ s)
between [] u v s e h = (v, e)
between (x ∷ p) u [] s e h =
    let size : length s ≡ suc (length p + length u) =
      ap length (sym e) ∙ ap suc (length-append p u) in
    absurd (omega arith)
between (x ∷ p) u (y ∷ v) s e h = between p u v s (cc e) h

abbrev IsStarless : Text → Type 0
IsStarless s = All (λ b. eqb b b'*' ≡ false) s

split-starless : (acc s : Text) → IsStarless s → split b'*' acc s ≡ (acc ++ s) ∷ []
unfolding split
split-starless acc [] h = ap (λ r. r ∷ []) (sym (append-nil acc))
split-starless acc (x ∷ s) (d, h) =
    rw d (split-starless (acc ++ x ∷ []) s h ∙ ap (λ r. r ∷ []) (append_assoc acc (x ∷ []) s))

split-star :
    (acc p s : Text)
    → IsStarless p
    → IsStarless s
    → split b'*' acc (p ++ b'*' ∷ s) ≡ (acc ++ p) ∷ s ∷ []
unfolding split
split-star acc [] s h k = rw (append-nil acc) (ap (λ r. acc ∷ r) (split-starless [] s k))
split-star acc (x ∷ p) s (d, h) k =
    rw d (split-star (acc ++ x ∷ []) p s h k ∙ ap (λ r. r ∷ s ∷ []) (append_assoc acc (x ∷ []) p))

-- The cases for an empty part say the same as the one for two parts.
match_parts_lem : (a p s : Text) → match_parts a (p ∷ s ∷ []) ≡ (has_prefix a p && has_suffix a s)
unfolding match_parts has_prefix
match_parts_lem a [] s = refl
match_parts_lem a (x ∷ p) [] =
    let all : has_suffix a [] ≡ true = rw (append-nil a) at (has_suffix-append a []) in
    ground (arith, all)
match_parts_lem a (x ∷ p) (y ∷ s) = refl

-- A pattern with one star matches an action that is at least as long as the two texts around the
-- star just if the action is these two with any text between them.
pub match_action_lem :
    (a p s : Text)
    → IsStarless p
    → IsStarless s
    → length p + length s ≤ length a
    → (match_action a (p ++ b'*' ∷ s) ≡ true) ↔ ((t : Text) × (a ≡ p ++ (t ++ s)))
unfolding match_action
match_action_lem a p s h k size = (
  λ m. elim (Bool-cases (text_eq (p ++ b'*' ∷ s) a)) [
    | inl same ↦ (b'*' ∷ [], sym ((text_eq_iff (p ++ b'*' ∷ s) a).0 same))
    | inr other ↦
        let parts : has_prefix a p && has_suffix a s ≡ true =
          sym (match_parts_lem a p s) ∙ (rw (other, split-star [] p s h k) at m) in
        let (u, e) = (has_prefix_lem a p).0 (ground (arith, parts)) in
        let (v, e') = suffix_of a s (ground (arith, parts)) in
        let room : length s ≤ length u = omega (arith, length-append p u, ap length e) in
        let (t, e3) = between p u v s (sym e ∙ e') room in (t, e ∙ ap (λ r. p ++ r) e3)
  ],
  λ (t, e). elim (Bool-cases (text_eq (p ++ b'*' ∷ s) a)) [
    | inl same ↦ rw same refl
    | inr other ↦
        rw (other, split-star [] p s h k, match_parts_lem a p s, (has_prefix_lem a p).1 (t ++ s, e))
          (rw (e ∙ sym (append_assoc p t s)) (has_suffix-append (p ++ t) s))
  ],
)
