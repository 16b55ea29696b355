-- ===== src/Retry/Attempts/Outcomes.antt =====
-- What `DoWithResult` returns, and after how many calls of `fn`.
use mathlib.Core.Path.{subst}
use waffle.Base.{
  ℕ, suc, ◌+◌, ◌-◌, ◌<◌, ◌≡◌, refl, ap, ◌∙◌, true, false, Option, none, some, ℤ, pos, pos_part,
  ◌≤ℤ◌, leb_ℤ, arith, Bool-cases, inl, inr, ◌⊎◌,
}
use waffle.Retry.Attempts.{
  Floats, Config, World, Run, is_retried, or_last, after_call, loop, with_defaults, do_with_result,
}
use waffle.Retry.Attempts.Rounds.{
  AllContinue, last_of, count_on, count_on_lem, more, more_lem, loop-Skips,
}

module _ {floats : Floats} {E : Type 0} where
  -- The number of attempts that are made at most.
  abbrev pub attempts : Config floats E → ℕ
  attempts cfg = pos_part (with_defaults cfg).max_attempts

  pub attempts_lem :
      (cfg : Config floats E)
      → (0 < attempts cfg)
        × ((with_defaults cfg).max_attempts ≡ pos (attempts cfg))
        × ((with_defaults cfg).retry_if ≡ cfg.retry_if)
  unfolding with_defaults
  attempts_lem cfg = (ground arith, ground arith, refl)

abbrev Returns : {E A : Type 0} → Run E A → A → Option E → ℕ → Type 0
Returns run v e calls = (run.value ≡ v) × (run.error ≡ e) × (run.calls ≡ calls)

module _ {floats : Floats} {E A : Type 0} (zero_value : A) (w : World floats E A) where
  module _ (cfg : Config floats E) where
    -- The loop by its rounds from attempt `k + 1` on.
    loop_more :
        (k r : ℕ) (d : ℤ) (v : A) (e : Option E) (calls : ℕ)
        → pos (suc k) ≤ℤ cfg.max_attempts
        → AllContinue cfg w k 1
        → ((d' : ℤ)
            → Returns (loop zero_value cfg w (suc r) (suc k) d' (last_of w k 1 none)) v e calls)
        → Returns (loop zero_value cfg w (more k (suc r)) 1 d none) v e (k + calls)
    loop_more k r d v e calls h c f =
        let s = loop-Skips zero_value cfg w k (suc r) 1 d none c (omega arith) in
        let i : suc k ≡ count_on k 1 = omega (arith, count_on_lem k 1) in
        let (a, b, n) =
          subst
            (λ n. Returns (loop zero_value cfg w (suc r) n s.delay (last_of w k 1 none)) v e calls)
            i (f s.delay) in
        (s.same_value ∙ a, s.same_error ∙ b, s.same_calls ∙ ap (more k) n ∙ more_lem k calls)

    -- A round that `fn` ends with a nil error.
    one_pass :
        (r n : ℕ) (d : ℤ) (last : Option E)
        → w.ctx_err n ≡ none
        → (w.fn_result n).1 ≡ none
        → Returns (loop zero_value cfg w (suc r) n d last) (w.fn_result n).0 none 1
    unfolding loop after_call
    one_pass r n d last c f = rw (c, loop) (rw (f, after_call) (refl, refl, refl))

    -- A round that ends with an error.
    one_fail :
        (r n : ℕ) (d : ℤ) (last : Option E) (err : E)
        → w.ctx_err n ≡ none
        → (w.fn_result n).1 ≡ some err
        → (is_retried cfg.retry_if err ≡ false) ⊎ (cfg.max_attempts ≡ pos n) ⊎ (w.is_done n ≡ true)
        → Returns (loop zero_value cfg w (suc r) n d last) zero_value (some err) 1
    unfolding loop after_call
    one_fail r n d last err c f s =
        rw (c, loop)
          (rw (f, after_call)
            (elim (Bool-cases (is_retried cfg.retry_if err)) [
              | inr refused ↦ rw refused (refl, refl, refl)
              | inl again ↦ elim (Bool-cases (leb_ℤ cfg.max_attempts (pos n))) [
                | inl last_one ↦ rw (again, last_one) (refl, refl, refl)
                | inr left ↦
                    let done : w.is_done n ≡ true = ground arith in
                    rw (again, left, done) (refl, refl, refl)
              ]
            ]))

    -- A round that the context stops.
    one_cancel :
        (r n : ℕ) (d : ℤ) (last : Option E) (e : E)
        → w.ctx_err n ≡ some e
        → Returns (loop zero_value cfg w (suc r) n d last) zero_value (or_last last e) 0
    unfolding loop
    one_cancel r n d last e c = rw (c, loop) (refl, refl, refl)

  module _ (cfg : Config floats E) (k : ℕ) (h : k < attempts cfg)
      (c : AllContinue (with_defaults cfg) w k 1) where
    last_rounds :
        (v : A) (e : Option E) (calls : ℕ)
        → ((r : ℕ) (d : ℤ)
            → Returns
                (loop zero_value (with_defaults cfg) w (suc r) (suc k) d (last_of w k 1 none))
                v
                e
                calls)
        → Returns (do_with_result zero_value cfg w) v e (k + calls)
    unfolding do_with_result
    last_rounds v e calls f =
        let cfg' = with_defaults cfg in
        let r = attempts cfg - suc k in
        let rounds : more k (suc r) ≡ attempts cfg = omega (arith, more_lem k (suc r)) in
        let le : pos (suc k) ≤ℤ cfg'.max_attempts = ground (arith, attempts_lem cfg) in
        subst (λ n. Returns (loop zero_value cfg' w n 1 cfg'.initial_delay none) v e (k + calls))
          rounds (loop_more cfg' k r cfg'.initial_delay v e calls le c (f r))

    -- Where attempt `k + 1` is the first whose call returns no error, after `k` attempts that fail
    -- and are followed by a wait, `DoWithResult` returns what that call returns, after `k + 1`
    -- calls.
    pub do_with_result-passes :
        w.ctx_err (suc k) ≡ none
        → (w.fn_result (suc k)).1 ≡ none
        → let run = do_with_result zero_value cfg w in
          (run.value ≡ (w.fn_result (suc k)).0) × (run.error ≡ none) × (run.calls ≡ k + 1)
    do_with_result-passes o f =
        last_rounds (w.fn_result (suc k)).0 none 1
          (λ r d. one_pass (with_defaults cfg) r (suc k) d (last_of w k 1 none) o f)

    -- Where attempt `k + 1`, after `k` attempts that fail and are followed by a wait, fails with an
    -- error that `RetryIf` refuses, or as the last attempt, or with a wait behind it that the
    -- context ends, `DoWithResult` returns its error, after `k + 1` calls.
    pub do_with_result-fails :
        (err : E)
        → w.ctx_err (suc k) ≡ none
        → (w.fn_result (suc k)).1 ≡ some err
        → (is_retried cfg.retry_if err ≡ false)
          ⊎ (attempts cfg ≡ suc k)
          ⊎ (w.is_done (suc k) ≡ true)
        → let run = do_with_result zero_value cfg w in
          (run.value ≡ zero_value) × (run.error ≡ some err) × (run.calls ≡ k + 1)
    do_with_result-fails err o f s = last_rounds zero_value (some err) 1 (λ r d.
        one_fail (with_defaults cfg) r (suc k) d (last_of w k 1 none) err o f
          (ground (arith, attempts_lem cfg)))

    -- Where the context is over before attempt `k + 1`, after `k` attempts that fail and are
    -- followed by a wait, `DoWithResult` returns after `k` calls, with the error of the last call
    -- or, if there was none, that of the context.
    pub do_with_result-cancelled :
        (e : E)
        → w.ctx_err (suc k) ≡ some e
        → let run = do_with_result zero_value cfg w in
          (run.value ≡ zero_value)
          × (run.error ≡ or_last (last_of w k 1 none) e)
          × (run.calls ≡ k + 0)
    do_with_result-cancelled e o =
        last_rounds zero_value (or_last (last_of w k 1 none) e) 0
          (λ r d. one_cancel (with_defaults cfg) r (suc k) d (last_of w k 1 none) e o)
