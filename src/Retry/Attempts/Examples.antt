-- ===== src/Retry/Attempts/Examples.antt =====
-- Two attempts fail and the third passes. Whole numbers stand for the floating ones.
use waffle.Base.{
  ℕ, ◌+◌, ◌<◌, ◌≡◌, eqb, if◌then◌else◌, refl, false, Option, none, some, [], ◌∷◌, ℤ, pos, ◌+ℤ◌,
  ◌-ℤ◌, ◌*ℤ◌, leb_ℤ, arith, inl, inr,
}
use waffle.Retry.Attempts.{
  Floats, Config, World, is_retried, loop, with_defaults, do_with_result, after_call, add_jitter,
  next_delay,
}
use waffle.Retry.Attempts.Rounds.{Continues}
use waffle.Retry.Attempts.Outcomes.{attempts, do_with_result-passes, do_with_result-fails}

abbrev whole : Floats
whole = record {
  Float = ℤ;
  is_not_positive = λ x. leb_ℤ x (pos 0);
  two = pos 2;
  of_int = λ x. x;
  to_int = λ x. x;
  plus = λ x y. x +ℤ y;
  minus = λ x y. x -ℤ y;
  times = λ x y. x *ℤ y;
}

abbrev config : ℤ → Config whole ℕ
config attempts_made = record {
  max_attempts = attempts_made;
  initial_delay = pos 10;
  max_delay = pos 15;
  multiplier = pos 2;
  jitter = pos 0;
  retry_if = none;
}

abbrev answers : ℕ → ℕ × Option ℕ
answers n = if eqb n 1 then (0, some 51) else (if eqb n 2 then (0, some 52) else (7, none))

abbrev cancels : ℕ → Option ℕ
cancels n = if eqb n 2 then some 99 else none

abbrev world : World whole ℕ ℕ
world = record {
  ctx_err = λ n. none;
  fn_result = answers;
  random = λ n. pos 0;
  is_done = λ n. false;
}

abbrev cancelled : World whole ℕ ℕ
cancelled = record world { ctx_err = cancels }

program : Unit {0}
unfolding do_with_result loop with_defaults after_call add_jitter next_delay is_retried ◌+ℤ◌ ◌-ℤ◌
    ◌*ℤ◌
program = tt

two_waits :
    (do_with_result 0 (config (pos 5)) world).waits
    ≡ record { attempt = 1; error = 51; delay = pos 10 }
      ∷ record { attempt = 2; error = 52; delay = pos 15 }
      ∷ []
unfolding program
two_waits = refl

first_of_world : (m : ℤ) → Continues (with_defaults (config m)) world 1
unfolding program
first_of_world m = record { started = refl; err = 51; failed = refl; retried = refl; waited = refl }

second_of_world : (m : ℤ) → Continues (with_defaults (config m)) world 2
unfolding program
second_of_world m = record {
  started = refl;
  err = 52;
  failed = refl;
  retried = refl;
  waited = refl;
}

first_of_cancelled : Continues (with_defaults (config (pos 5))) cancelled 1
unfolding program
first_of_cancelled = record {
  started = refl;
  err = 51;
  failed = refl;
  retried = refl;
  waited = refl;
}

five : 2 < attempts (config (pos 5))
unfolding program
five = omega arith

five' : 1 < attempts (config (pos 5))
unfolding program
five' = omega arith

two : attempts (config (pos 2)) ≡ 2
unfolding program
two = refl

two' : 1 < attempts (config (pos 2))
two' = omega (arith, two)

do_with_result-passes_example :
    let run = do_with_result 0 (config (pos 5)) world in
    (run.value ≡ 7) × (run.error ≡ none) × (run.calls ≡ 2 + 1)
do_with_result-passes_example =
    do_with_result-passes 0 world (config (pos 5)) 2 five
      (first_of_world (pos 5), (second_of_world (pos 5), tt)) refl refl

do_with_result-fails_example :
    let run = do_with_result 0 (config (pos 2)) world in
    (run.value ≡ 0) × (run.error ≡ some 52) × (run.calls ≡ 1 + 1)
do_with_result-fails_example =
    do_with_result-fails 0 world (config (pos 2)) 1 two' (first_of_world (pos 2), tt) 52 refl refl
      (inr (inl two))
