-- ===== src/Retry/Attempts/Calls.antt =====
-- How often the loop calls `fn`, and where a value comes from.
use waffle.Base.{
  ℕ, zero, suc, ◌+◌, ◌≤◌, ◌≡◌, ◌≢◌, refl, Option, none, some, List, [], ℤ, pos, leb_ℤ, arith,
  Option-cases, Bool-cases, inl, inr,
}
use waffle.Retry.Attempts.{
  Floats, Config, World, Wait, Run, is_retried, or_last, return_error, after_call, next_delay, loop,
  with_defaults, do_with_result,
}
use waffle.Retry.Attempts.Outcomes.{attempts, attempts_lem}

module _ {floats : Floats} {E A : Type 0} (zero_value : A) (w : World floats E A) where
  -- At most `r` calls from attempt `n` on; a nil error is the result of the last of them.
  record Traced (r n : ℕ) (run : Run E A) : Type 0 where
    bounded : run.calls ≤ r
    value_of_call :
        run.error ≡ none
        → (k : ℕ) × (n + run.calls ≡ suc k)
          × ((w.fn_result k).1 ≡ none)
          × ((w.fn_result k).0 ≡ run.value)

  error-Traced :
      (r n calls : ℕ) (o : Option E) (waits : List (Wait E))
      → calls ≤ r
      → o ≢ none
      → Traced r n (return_error zero_value o calls waits)
  error-Traced r n calls o waits le h = record { bounded = le; value_of_call = λ e. absurd (h e) }

  next-Traced :
      (r n : ℕ) (rest : Run E A) (waits : List (Wait E))
      → Traced r (suc n) rest
      → Traced (suc r) n (record rest { calls = suc rest.calls; waits = waits })
  next-Traced r n rest waits t = record {
    bounded = omega (arith, t.bounded);
    value_of_call = λ e. (let (k, a, f, v) = t.value_of_call e in (k, omega arith, f, v));
  }

  or_last-some : (last : Option E) (e : E) → or_last last e ≢ none
  or_last-some none e h = cc
  or_last-some (some x) e h = cc

  module _ (cfg : Config floats E) where
    after_call-Traced :
        (r n : ℕ) (d : ℤ) (rest : Run E A) (p : A × Option E)
        → (w.fn_result n).0 ≡ p.0
        → (w.fn_result n).1 ≡ p.1
        → (p.1 ≢ none → Traced r (suc n) rest)
        → Traced (suc r) n (after_call zero_value cfg w n d rest p)
    unfolding after_call
    after_call-Traced r n d rest (v, none) a b t = record {
      bounded = omega arith;
      value_of_call = λ e. (n, omega arith, b, a);
    }
    after_call-Traced r n d rest (v, some err) a b t =
        let one =
          λ (ws : List (Wait E)). error-Traced (suc r) n 1 (some err) ws (omega arith) (λ e. cc) in
        elim (Bool-cases (is_retried cfg.retry_if err)) [
          | inr refused ↦ rw refused (one [])
          | inl again ↦ elim (Bool-cases (leb_ℤ cfg.max_attempts (pos n))) [
            | inl last_one ↦ rw (again, last_one) (one [])
            | inr left ↦ elim (Bool-cases (w.is_done n)) [
              | inl done ↦ rw (again, left, done) (one _)
              | inr waited ↦ rw (again, left, waited) (next-Traced r n rest _ (t (λ e. cc)))
            ]
          ]
        ]

    loop-Traced :
        (r n : ℕ) (d : ℤ) (last : Option E)
        → (r ≡ 0 → last ≢ none)
        → Traced r n (loop zero_value cfg w r n d last)
    unfolding loop
    loop-Traced zero n d last h = error-Traced 0 n 0 last [] (omega arith) (h refl)
    loop-Traced (suc r) n d last h = elim (Option-cases (w.ctx_err n)) [
      | inl o ↦
          rw (o, loop)
            (after_call-Traced r n d _ (w.fn_result n) refl refl
              (λ f. loop-Traced r (suc n) (next_delay cfg d) (w.fn_result n).1 (λ z. f)))
      | inr (e, o) ↦
          rw (o, loop) (error-Traced (suc r) n 0 _ [] (omega arith) (or_last-some last e))
    ]

  -- `DoWithResult` calls `fn` at most as often as there are attempts, and where it returns no
  -- error, the last call of `fn` returned none, and with it the same value.
  pub calls-do_with_result :
      (cfg : Config floats E)
      → let run = do_with_result zero_value cfg w in
        (run.calls ≤ attempts cfg)
        × (run.error ≡ none
            → ((w.fn_result run.calls).1 ≡ none) × ((w.fn_result run.calls).0 ≡ run.value))
  unfolding do_with_result
  calls-do_with_result cfg =
      let cfg' = with_defaults cfg in
      let t =
        loop-Traced cfg' (attempts cfg) 1 cfg'.initial_delay none
          (λ z. absurd (ground (arith, attempts_lem cfg, z))) in
      (
        t.bounded,
        λ e.
            (let (k, a, f, v) = t.value_of_call e in
              let k_is : k ≡ (do_with_result zero_value cfg w).calls = omega arith in
              rw (← k_is) (f, v)),
      )
