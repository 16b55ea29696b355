-- ===== src/Retry/Attempts.antt =====
-- pantry/retry/retry.go: the loop of `DoWithResult`; `Do` has the same text with no value. What
-- the loop meets is given by the number of the attempt. Floating point enters as an interface.
pub mod Rounds
pub mod Outcomes
pub mod Calls
pub mod Delays
mod Examples
use waffle.Base.{
  ℕ, zero, suc, Bool, true, false, not, Option, none, some, List, [], ◌∷◌, ℤ, pos, pos_part, leb_ℤ,
  ltb_ℤ, if◌then◌else◌,
}

-- The operations on `float64` that the package uses: `<= 0`, the literal 2.0, the conversions
-- from and to an integer, and arithmetic.
pub record Floats : Type 1 where
  pub Float : Type 0
  pub is_not_positive : Float → Bool
  pub two : Float
  pub of_int : ℤ → Float
  pub to_int : Float → ℤ
  pub plus : Float → Float → Float
  pub minus : Float → Float → Float
  pub times : Float → Float → Float

-- `retry_if` is none for a nil function. `OnRetry` only observes: see `Wait`.
pub record Config (floats : Floats) (E : Type 0) : Type 0 where
  pub max_attempts : ℤ
  pub initial_delay : ℤ
  pub max_delay : ℤ
  pub multiplier : floats.Float
  pub jitter : floats.Float
  pub retry_if : Option (E → Bool)

-- What attempt `n` meets: what `ctx.Err` says before it, what `fn` returns, what `rand.Float64`
-- gives after it, and whether the `select` after it takes `ctx.Done`.
pub record World (floats : Floats) (E A : Type 0) : Type 0 where
  pub ctx_err : ℕ → Option E
  pub fn_result : ℕ → A × Option E
  pub random : ℕ → floats.Float
  pub is_done : ℕ → Bool

-- A wait before a retry; `OnRetry`, where it is set, is called with these three before it.
pub record Wait (E : Type 0) : Type 0 where
  pub attempt : ℕ
  pub error : E
  pub delay : ℤ

-- The two results, and beside them the number of calls of `fn` and the waits.
pub record Run (E A : Type 0) : Type 0 where
  pub value : A
  pub error : Option E
  pub calls : ℕ
  pub waits : List (Wait E)

-- `u` is what `rand.Float64` gives.
unfoldable pub add_jitter : (floats : Floats) → ℤ → floats.Float → floats.Float → ℤ
add_jitter floats d jitter u =
    if floats.is_not_positive jitter
    then d
    else (let delta = floats.times (floats.of_int d) jitter in
        let min = floats.minus (floats.of_int d) delta in
        let max = floats.plus (floats.of_int d) delta in
        floats.to_int (floats.plus min (floats.times u (floats.minus max min))))

unfoldable pub is_retried : {E : Type 0} → Option (E → Bool) → E → Bool
is_retried none err = true
is_retried (some retry_if) err = retry_if err

-- The return of an error, after so many calls in this round.
abbrev pub return_error : {E A : Type 0} → A → Option E → ℕ → List (Wait E) → Run E A
return_error zero_value e calls waits = record {
  value = zero_value;
  error = e;
  calls = calls;
  waits = waits;
}

abbrev pub or_last : {E : Type 0} → Option E → E → Option E
or_last none e = some e
or_last (some last) e = some last

module _ {floats : Floats} {E : Type 0} where
  unfoldable pub with_defaults : Config floats E → Config floats E
  with_defaults cfg = record cfg {
    max_attempts = if leb_ℤ cfg.max_attempts (pos 0) then pos 3 else cfg.max_attempts;
    initial_delay = if leb_ℤ cfg.initial_delay (pos 0) then pos 100_000_000 else cfg.initial_delay;
    max_delay = if leb_ℤ cfg.max_delay (pos 0) then pos 30_000_000_000 else cfg.max_delay;
    multiplier = if floats.is_not_positive cfg.multiplier then floats.two else cfg.multiplier;
  }

  unfoldable pub next_delay : Config floats E → ℤ → ℤ
  next_delay cfg delay =
      let longer = floats.to_int (floats.times (floats.of_int delay) cfg.multiplier) in
      if ltb_ℤ cfg.max_delay longer then cfg.max_delay else longer

  module _ {A : Type 0} (zero_value : A) where
    -- The loop from a call of `fn` on; `rest` is what the next rounds do.
    unfoldable pub after_call :
        Config floats E → World floats E A → ℕ → ℤ → Run E A → A × Option E → Run E A
    unfolding add_jitter
    after_call cfg w attempt delay rest (v, none) = record {
      value = v;
      error = none;
      calls = 1;
      waits = [];
    }
    after_call cfg w attempt delay rest (v, some err) =
        let wait : Wait E = record {
          attempt = attempt;
          error = err;
          delay = add_jitter floats delay cfg.jitter (w.random attempt);
        } in
        if not (is_retried cfg.retry_if err)
        then return_error zero_value (some err) 1 []
        else (if leb_ℤ cfg.max_attempts (pos attempt)
            then return_error zero_value (some err) 1 []
            else (if w.is_done attempt
                then return_error zero_value (some err) 1 (wait ∷ [])
                else record rest { calls = suc rest.calls; waits = wait ∷ rest.waits }))

    -- The loop with so many rounds left.
    unfoldable pub loop : Config floats E → World floats E A → ℕ → ℕ → ℤ → Option E → Run E A
    unfolding after_call next_delay
    loop cfg w zero attempt delay last_err = return_error zero_value last_err 0 []
    loop cfg w (suc rounds) attempt delay last_err =
        let rest = loop cfg w rounds (suc attempt) (next_delay cfg delay) (w.fn_result attempt).1 in
        elim (w.ctx_err attempt) [
          | some e ↦ return_error zero_value (or_last last_err e) 0 []
          | none ↦ after_call cfg w attempt delay rest (w.fn_result attempt)
        ]

    unfoldable pub do_with_result : Config floats E → World floats E A → Run E A
    unfolding loop with_defaults
    do_with_result cfg w =
        let cfg' = with_defaults cfg in
        loop cfg' w (pos_part cfg'.max_attempts) 1 cfg'.initial_delay none

  -- `Do`: the text of `DoWithResult` without the value.
  unfoldable pub do_retry : Config floats E → World floats E (Unit {0}) → Option E
  unfolding do_with_result
  do_retry cfg w = (do_with_result tt cfg w).error
