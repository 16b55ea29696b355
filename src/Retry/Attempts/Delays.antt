-- ===== src/Retry/Attempts/Delays.antt =====
-- How long the loop waits.
use waffle.Base.{
  ℕ, zero, suc, ◌≡◌, refl, true, Option, none, some, List, [], ◌∷◌, ℤ, pos, ◌≤ℤ◌, leb_ℤ, arith,
  Option-cases, Bool-cases, inl, inr, All,
}
use waffle.Retry.Attempts.{
  Floats, Config, World, Wait, Run, is_retried, after_call, add_jitter, next_delay, loop,
  with_defaults, do_with_result,
}
use waffle.Retry.Attempts.Outcomes.{attempts}

-- The waits are capped.
abbrev pub IsCapped : {E : Type 0} → ℤ → List (Wait E) → Type 0
IsCapped m ws = All (λ x. x.delay ≤ℤ m) ws

-- All waits but the first are capped, and the first is `d`.
abbrev pub IsCappedFrom : {E : Type 0} → ℤ → ℤ → List (Wait E) → Type 0
IsCappedFrom d m [] = Unit
IsCappedFrom d m (x ∷ xs) = (x.delay ≡ d) × IsCapped m xs

module _ {floats : Floats} {E A : Type 0} (zero_value : A) (w : World floats E A) where
  module _ (cfg : Config floats E) (plain : floats.is_not_positive cfg.jitter ≡ true) where
    next_delay-IsCapped : (d : ℤ) → next_delay cfg d ≤ℤ cfg.max_delay
    unfolding next_delay
    next_delay-IsCapped d = ground arith

    after_call-IsCappedFrom :
        (n : ℕ) (d : ℤ) (rest : Run E A) (p : A × Option E)
        → IsCapped cfg.max_delay rest.waits
        → IsCappedFrom d cfg.max_delay (after_call zero_value cfg w n d rest p).waits
    unfolding after_call add_jitter
    after_call-IsCappedFrom n d rest (v, none) h = tt
    after_call-IsCappedFrom n d rest (v, some err) h =
        elim (Bool-cases (is_retried cfg.retry_if err)) [
          | inr refused ↦ rw refused tt
          | inl again ↦ elim (Bool-cases (leb_ℤ cfg.max_attempts (pos n))) [
            | inl last_one ↦ rw (again, last_one) tt
            | inr left ↦ elim (Bool-cases (w.is_done n)) [
              | inl done ↦ rw (again, left, done, plain) (refl, tt)
              | inr waited ↦ rw (again, left, waited, plain) (refl, h)
            ]
          ]
        ]

    weaken :
        (d : ℤ) (ws : List (Wait E))
        → d ≤ℤ cfg.max_delay
        → IsCappedFrom d cfg.max_delay ws
        → IsCapped cfg.max_delay ws
    weaken d [] le h = tt
    weaken d (x ∷ xs) le (e, h) = (rw e le, h)

    loop-IsCappedFrom :
        (r n : ℕ) (d : ℤ) (last : Option E)
        → IsCappedFrom d cfg.max_delay (loop zero_value cfg w r n d last).waits
    unfolding loop
    loop-IsCappedFrom zero n d last = tt
    loop-IsCappedFrom (suc r) n d last =
        let d' = next_delay cfg d in
        let f = (w.fn_result n).1 in
        let rest =
          weaken d' (loop zero_value cfg w r (suc n) d' f).waits (next_delay-IsCapped d)
            (loop-IsCappedFrom r (suc n) d' f) in
        elim (Option-cases (w.ctx_err n)) [
          | inl o ↦ rw (o, loop) (after_call-IsCappedFrom n d _ (w.fn_result n) rest)
          | inr (e, o) ↦ rw (o, loop) tt
        ]

  -- Without jitter, the first wait of `DoWithResult` is the initial delay, whatever `MaxDelay` is,
  -- and all later ones are at most `MaxDelay`.
  pub do_with_result-IsCappedFrom :
      (cfg : Config floats E)
      → floats.is_not_positive cfg.jitter ≡ true
      → let cfg' = with_defaults cfg in
        IsCappedFrom cfg'.initial_delay cfg'.max_delay (do_with_result zero_value cfg w).waits
  unfolding do_with_result with_defaults
  do_with_result-IsCappedFrom cfg plain =
      let cfg' = with_defaults cfg in
      loop-IsCappedFrom cfg' plain (attempts cfg) 1 cfg'.initial_delay none
