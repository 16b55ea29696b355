-- ===== src/Retry/Attempts/Rounds.antt =====
-- One round of the loop, and many.
use waffle.Base.{
  ℕ, zero, suc, ◌+◌, ◌≡◌, refl, ap, ◌∙◌, true, false, Option, none, some, ℤ, pos, ◌<ℤ◌, ◌≤ℤ◌, leb_ℤ,
  arith,
}
use waffle.Retry.Attempts.{Floats, Config, World, Run, is_retried, after_call, next_delay, loop}

-- `j + n`, counted up from `n`.
abbrev pub count_on : ℕ → ℕ → ℕ
count_on zero n = n
count_on (suc j) n = count_on j (suc n)

pub count_on_lem : (j n : ℕ) → count_on j n ≡ j + n
count_on_lem zero n = omega arith
count_on_lem (suc j) n = ground (arith, count_on_lem j (suc n))

-- `j` more than `r`.
abbrev pub more : ℕ → ℕ → ℕ
more zero r = r
more (suc j) r = suc (more j r)

pub more_lem : (j r : ℕ) → more j r ≡ j + r
more_lem zero r = omega arith
more_lem (suc j) r = ground (arith, more_lem j r)

module _ {floats : Floats} {E A : Type 0} where
  -- Attempt `n` is made and fails, the error is one to retry, and the wait is not cut short.
  pub record Continues (cfg : Config floats E) (w : World floats E A) (n : ℕ) : Type 0 where
    pub started : w.ctx_err n ≡ none
    pub err : E
    pub failed : (w.fn_result n).1 ≡ some err
    pub retried : is_retried cfg.retry_if err ≡ true
    pub waited : w.is_done n ≡ false

  -- The error that the loop keeps after `j` failed attempts from attempt `n` on.
  abbrev pub last_of : World floats E A → ℕ → ℕ → Option E → Option E
  last_of w zero n last = last
  last_of w (suc j) n last = last_of w j (suc n) (w.fn_result n).1

  -- `j` attempts from attempt `n` on continue.
  abbrev pub AllContinue : Config floats E → World floats E A → ℕ → ℕ → Type 0
  AllContinue cfg w zero n = Unit
  AllContinue cfg w (suc j) n = Continues cfg w n × AllContinue cfg w j (suc n)

  module _ (zero_value : A) (cfg : Config floats E) (w : World floats E A) where
    one_more :
        (r n : ℕ) (delay : ℤ) (last : Option E)
        → Continues cfg w n
        → pos n <ℤ cfg.max_attempts
        → let run = loop zero_value cfg w (suc r) n delay last in
          let rest = loop zero_value cfg w r (suc n) (next_delay cfg delay) (w.fn_result n).1 in
          (run.value ≡ rest.value) × (run.error ≡ rest.error) × (run.calls ≡ suc rest.calls)
    unfolding loop after_call
    one_more r n delay last c h =
        let failed : (w.fn_result n).1 ≡ some c.err = c.failed in
        let left : leb_ℤ cfg.max_attempts (pos n) ≡ false = ground arith in
        rw (c.started, loop)
          (rw (c.failed, after_call) (rw (c.retried, left, c.waited) (cc, cc, cc)))

    -- The loop after `j` attempts that continue.
    pub record Skips (r n : ℕ) (last : Option E) (j : ℕ) (run : Run E A) : Type 0 where
      pub delay : ℤ
      pub same_value :
          run.value ≡ (loop zero_value cfg w r (count_on j n) delay (last_of w j n last)).value
      pub same_error :
          run.error ≡ (loop zero_value cfg w r (count_on j n) delay (last_of w j n last)).error
      pub same_calls :
          run.calls
          ≡ more j (loop zero_value cfg w r (count_on j n) delay (last_of w j n last)).calls

    pub loop-Skips :
        (j r n : ℕ) (delay : ℤ) (last : Option E)
        → AllContinue cfg w j n
        → pos (n + j) ≤ℤ cfg.max_attempts
        → Skips r n last j (loop zero_value cfg w (more j r) n delay last)
    loop-Skips zero r n delay last c h = record {
      delay = delay;
      same_value = refl;
      same_error = refl;
      same_calls = refl;
    }
    loop-Skips (suc j) r n delay last (c, cs) h =
        let (v, e, k) = one_more (more j r) n delay last c (omega arith) in
        let rest =
          loop-Skips j r (suc n) (next_delay cfg delay) (w.fn_result n).1 cs (omega arith) in
        record {
          delay = rest.delay;
          same_value = v ∙ rest.same_value;
          same_error = e ∙ rest.same_error;
          same_calls = k ∙ ap suc rest.same_calls;
        }
