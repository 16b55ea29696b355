-- ===== src/Validate/Rules/Base64.antt =====
-- pantry/validate/rules.go: which texts pass the rule `base64`.
use waffle.Base.{
  ℕ, zero, suc, ◌%◌, ◌≤◌, ◌≡◌, ◌↔◌, refl, ap, ◌∙◌, inl, inr, true, ◌&&◌, [], ◌∷◌, ◌++◌, length,
  replicate, eqb, eqb_iff, All, Text, arith,
}
use waffle.Validate.Patterns.{
  Class, in_class, byte, repeated, concat, Describes, matches, matches_lem,
}
use waffle.Validate.Formats.{up_to, one, letters_digits, base64_regex}
use waffle.Validate.Rules.{rule_base64}
use waffle.Validate.Rules.Hostnames.{accepts_of}

abbrev base64_bytes : Class
base64_bytes = (b'+', b'+') ∷ (b'/', b'/') ∷ letters_digits

-- Bytes of the alphabet, then at most two signs of padding, in groups of four.
abbrev pub IsBase64 : Text → Type 0
IsBase64 s =
    (t : Text) × (k : ℕ) × (s ≡ t ++ replicate k b'=')
    × All (λ b. in_class base64_bytes b ≡ true) t
    × (k ≤ 2)
    × (length s % 4 ≡ 0)

padding_of :
    (n : ℕ) (u : Text)
    → Describes (up_to n (one b'=')) u
    → (k : ℕ) × (u ≡ replicate k b'=') × (k ≤ n)
unfolding Describes
padding_of zero u h = (0, h, omega arith)
padding_of (suc n) u (inl h) = (0, h, omega arith)
padding_of (suc n) u (inr (v, w, e, (b, e', h), r)) =
    let (k, same, few) = padding_of n w r in
    let equals : b ≡ b'=' = ground arith in
    (suc k, e ∙ ap (λ x. x ++ w) e' ∙ (rw (equals, same) refl), omega (arith, few))

padding-Describes : (n k : ℕ) → k ≤ n → Describes (up_to n (one b'=')) (replicate k b'=')
unfolding Describes
padding-Describes zero zero h = refl
padding-Describes zero (suc k) h = absurd (omega arith)
padding-Describes (suc n) zero h = inl refl
padding-Describes (suc n) (suc k) h =
    inr (b'=' ∷ [], replicate k b'=', refl, (b'=', refl, refl), padding-Describes n k (omega arith))

bytes_of :
    (c : Class) (s : Text) → Describes (repeated (byte c)) s → All (λ b. in_class c b ≡ true) s
unfolding Describes
bytes_of c s ([], e, h) = rw e tt
bytes_of c s (t ∷ ts, e, ((b, e', h), k)) = rw (e, e') (h, bytes_of c (concat ts) (ts, refl, k))

bytes-Describes :
    (c : Class) (s : Text) → All (λ b. in_class c b ≡ true) s → Describes (repeated (byte c)) s
unfolding Describes
bytes-Describes c [] h = ([], refl, tt)
bytes-Describes c (b ∷ s) (p, h) =
    let (ts, e, k) = bytes-Describes c s h in ((b ∷ []) ∷ ts, ap (λ r. b ∷ r) e, ((b, refl, p), k))

-- A text that is not empty passes just if it is base64 with at most two signs of padding, which
-- stand at its end, and has a length that is a multiple of four.
pub rule_base64_lem : (b : ℕ) (s : Text) → (rule_base64 (b ∷ s) ≡ "") ↔ IsBase64 (b ∷ s)
unfolding rule_base64 Describes
rule_base64_lem b s = (
  λ h.
      let ok =
        accepts_of "base64" (λ t. eqb (length t % 4) 0 && matches base64_regex t) b s (λ e. cc) h in
      let four : length (b ∷ s) % 4 ≡ 0 = ground (arith, ok) in
      let m : matches base64_regex (b ∷ s) ≡ true = ground (arith, ok) in
      let (t, u, e, h, k) = ((matches_lem base64_regex (b ∷ s)).0 m) in
      let (n, same, few) = padding_of 2 u k in
      (t, n, e ∙ ap (λ r. t ++ r) same, bytes_of base64_bytes t h, few, four),
  λ (t, n, e, h, few, four).
      let d : Describes base64_regex (b ∷ s) =
        (t, replicate n b'=', e, bytes-Describes base64_bytes t h, padding-Describes 2 n few) in
      rw ((eqb_iff (length (b ∷ s) % 4) 0).1 four, (matches_lem base64_regex (b ∷ s)).1 d) refl,
)
