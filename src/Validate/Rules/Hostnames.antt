-- ===== src/Validate/Rules/Hostnames.antt =====
-- pantry/validate/rules.go: which texts pass the rule `hostname`.
use waffle.Base.{
  ℕ, zero, suc, ◌≤◌, ◌≡◌, ◌≢◌, ap, ◌∙◌, inl, inr, Bool, true, not, ◌&&◌, List, [], ◌∷◌, ◌++◌,
  length, length-append, ltb, All, All-map, Text, String, Bool-cases, arith,
}
use waffle.Validate.Patterns.{Class, in_class, byte, Describes, matches, matches_lem}
use waffle.Validate.Formats.{up_to, label, letters_digits, hostname_regex}
use waffle.Validate.Rules.{rule, rule_hostname}

pub All-append :
    {A : Type 0} (P : A → Type 0) (xs ys : List A) → All P xs → All P ys → All P (xs ++ ys)
All-append P [] ys h k = k
All-append P (x ∷ xs) ys (p, h) k = (p, All-append P xs ys h k)

-- A repeated byte gives at most so many bytes, each of its class.
pub up_to_bytes :
    (n : ℕ) (c : Class) (s : Text)
    → Describes (up_to n (byte c)) s
    → (length s ≤ n) × All (λ b. in_class c b ≡ true) s
unfolding Describes
up_to_bytes zero c s h = rw h (omega arith, tt)
up_to_bytes (suc n) c s (inl h) = rw h (omega arith, tt)
up_to_bytes (suc n) c s (inr (t, u, e, (b, e', h), k)) =
    let (size, others) = up_to_bytes n c u k in
    rw (e ∙ ap (λ r. r ++ u) e') (omega (arith, size), (h, others))

label-bytes :
    (s : Text)
    → Describes label s
    → (length s ≤ 63) × All (λ b. in_class ((b'-', b'-') ∷ letters_digits) b ≡ true) s
unfolding Describes
label-bytes s (t, u, e, (b, e', h), inl k) = rw (e, e', k) (omega arith, (ground arith, tt))
label-bytes s (t, u, e, (b, e', h), inr (v, w, e'', k, (d, e3, h'))) =
    let (size, others) = up_to_bytes 61 ((b'-', b'-') ∷ letters_digits) v k in
    rw (e, e', e'', e3)
      (
        omega (arith, size, length-append v (d ∷ [])),
        (ground arith, All-append _ v (d ∷ []) others (ground arith, tt)),
      )

pub accepts_of :
    (name : String) (accepts : Text → Bool) (b : ℕ) (s : Text)
    → name ≢ ""
    → rule name accepts (b ∷ s) ≡ ""
    → accepts (b ∷ s) ≡ true
unfolding rule
accepts_of name accepts b s different h = elim (Bool-cases (accepts (b ∷ s))) [
  | inl e ↦ e
  | inr e ↦ absurd (different (rw e at h))
]

-- The rule only passes single labels: a text that passes has at most 63 bytes and no dot among
-- them, so the rule's own limit of 253 bytes refuses nothing, and every name of a host with a
-- domain is refused.
pub rule_hostname-label :
    (s : Text) → rule_hostname s ≡ "" → (length s ≤ 63) × All (λ b. b ≢ b'.') s
unfolding rule_hostname
rule_hostname-label [] h = (omega arith, tt)
rule_hostname-label (b ∷ s) h =
    let ok =
      accepts_of "hostname" (λ t. not (ltb 253 (length t)) && matches hostname_regex t) b s
        (λ e. cc) h in
    let m : matches hostname_regex (b ∷ s) ≡ true = ground arith in
    let (size, bytes) = label-bytes (b ∷ s) ((matches_lem hostname_regex (b ∷ s)).0 m) in
    (size, All-map (λ d k e. cc) (b ∷ s) bytes)
