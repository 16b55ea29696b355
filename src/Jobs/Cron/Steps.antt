-- ===== src/Jobs/Cron/Steps.antt =====
-- stepValues: the values of a range with a step, and what becomes of them where `i += step`
-- overflows.
use waffle.Base.{
  ℕ, zero, suc, ◌+◌, ◌-◌, ◌*◌, ◌^◌, ◌≤◌, ◌<◌, ◌≡◌, ap, ◌∙◌, ◌↔◌, ◌⊎◌, inl, inr, true, false, Option,
  none, some, List, [], ◌∷◌, ℤ, pos, negsuc, ◌+ℤ◌, ◌-ℤ◌, ltb_ℤ, leb_ℤ, Elem, arith, Bool-cases,
  Option-cases, if◌then◌else◌,
}
use waffle.Jobs.Cron.Values.{add_64, step_loop, step_fuel, step_values}

add_64-fits : (i s : ℕ) → i + s < 0x8000_0000_0000_0000 → add_64 (pos i) (pos s) ≡ pos (i + s)
unfolding add_64 ◌+ℤ◌ ◌-ℤ◌
add_64-fits i s h = ground arith

add_64-overflows :
    (i s : ℕ)
    → 0x8000_0000_0000_0000 ≤ i + s
    → i + s < 0x1_0000_0000_0000_0000
    → add_64 (pos i) (pos s) ≡ negsuc (0xffff_ffff_ffff_ffff - (i + s))
unfolding add_64 ◌+ℤ◌ ◌-ℤ◌
add_64-overflows i s h h' = ground arith

add_64-negsuc :
    (n s : ℕ)
    → n < 0x8000_0000_0000_0000
    → s < 0x8000_0000_0000_0000
    → add_64 (negsuc n) (pos s)
      ≡ (if leb_ℤ (pos (suc n)) (pos s) then pos (s - suc n) else negsuc (n - s))
unfolding add_64 ◌+ℤ◌ ◌-ℤ◌
add_64-negsuc n s h h' = ground arith

-- `v` is `i`, `i + step`, `i + 2 * step`, …, and at most `max`.
abbrev pub IsStep : ℕ → ℕ → ℕ → ℤ → Type 0
IsStep i max step v = (k : ℕ) × (v ≡ pos (i + k * step)) × (i + k * step ≤ max)

-- One more value in front.
IsStep-cons :
    (i max step : ℕ) (v : ℤ)
    → i ≤ max
    → ((v ≡ pos i) ⊎ IsStep (i + step) max step v) ↔ IsStep i max step v
IsStep-cons i max step v h = (to, from)
  where
    to : (v ≡ pos i) ⊎ IsStep (i + step) max step v → IsStep i max step v
    to (inl e) = (0, ground (arith, e), omega arith)
    to (inr (k, e, le)) = (suc k, ground (arith, e), omega arith)

    from : IsStep i max step v → (v ≡ pos i) ⊎ IsStep (i + step) max step v
    from (zero, e, le) = inl (ground (arith, e))
    from (suc k, e, le) = inr (k, ground (arith, e), omega arith)

step_loop-IsStep :
    (fuel i max step : ℕ)
    → 0 < step
    → max + step < 0x8000_0000_0000_0000
    → 0 < fuel
    → max + 1 < i + fuel
    → (vs : List ℤ) × (step_loop fuel (pos i) (pos max) (pos step) ≡ some vs)
      × ((v : ℤ) → Elem v vs ↔ IsStep i max step v)
unfolding step_loop
step_loop-IsStep zero i max step s h f f' = absurd (omega arith)
step_loop-IsStep (suc fuel) i max step s h f f' = elim (Bool-cases (leb_ℤ (pos i) (pos max))) [
  | inl le ↦
      let i≤max : i ≤ max = ground arith in
      let (vs, e, iff) =
        step_loop-IsStep fuel (i + step) max step s h (omega arith) (omega arith) in
      (
        pos i ∷ vs,
        rw (add_64-fits i step (omega arith), le, e),
        λ v.
            let cons = IsStep-cons i max step v i≤max in
            (
              λ m. cons.0 (elim m [ inl p ↦ inl p | inr q ↦ inr ((iff v).0 q) ]),
              λ m. elim (cons.1 m) [ inl p ↦ inl p | inr q ↦ inr ((iff v).1 q) ],
            ),
      )
  | inr gt ↦
      let max<i : max < i = ground arith in
      ([], rw gt, λ v. (λ m. absurd m, λ m. absurd (omega (arith, m.2))))
]

-- Where no addition overflows, `stepValues` returns, and gives `min`, `min + step`, … up to `max`
-- and nothing else.
pub step_values-IsStep :
    (min max step : ℕ)
    → 0 < step
    → max + step < 0x8000_0000_0000_0000
    → (vs : List ℤ) × (step_values min max (pos step) ≡ some vs)
      × ((v : ℤ) → Elem v vs ↔ IsStep min max step v)
unfolding step_values
step_values-IsStep min max step s h =
    step_loop-IsStep (step_fuel max) min max step s h (omega arith) (omega arith)

abbrev in_front : ℤ → Option (List ℤ) → Option (List ℤ)
in_front i none = none
in_front i (some vs) = some (i ∷ vs)

-- One round of the loop, with the rest of it shut.
loop_more :
    (fuel : ℕ) (i max step : ℤ)
    → leb_ℤ i max ≡ true
    → step_loop (suc fuel) i max step ≡ in_front i (step_loop fuel (add_64 i step) max step)
unfolding step_loop
loop_more fuel i max step h = ground arith

loop_stop :
    (fuel : ℕ) (i max step : ℤ) → leb_ℤ i max ≡ false → step_loop (suc fuel) i max step ≡ some []
unfolding step_loop
loop_stop fuel i max step h = rw h

-- A step so long that some value in range overflows.
module _ (max step : ℕ) (small : max < 2 ^ 32) (big : 0x8000_0000_0000_0000 ≤ max + step)
    (word : step < 0x8000_0000_0000_0000) where
  Returns : ℕ → ℤ → Type 0
  Returns fuel i = (vs : List ℤ) × (step_loop fuel i (pos max) (pos step) ≡ some vs)

  more :
      (fuel : ℕ) (i : ℤ)
      → leb_ℤ i (pos max) ≡ true
      → Returns fuel (add_64 i (pos step))
      → Returns (suc fuel) i
  unfolding Returns
  more fuel i h (vs, e) = (i ∷ vs, rw (loop_more fuel i (pos max) (pos step) h, e))

  past : (fuel n : ℕ) → 0 < fuel → max < n → Returns fuel (pos n)
  unfolding Returns
  past zero n f h = absurd (omega arith)
  past (suc fuel) n f h = ([], loop_stop fuel (pos n) (pos max) (pos step) (ground arith))

  negative : (fuel n : ℕ) → 1 < fuel → n < 2 ^ 34 → Returns fuel (negsuc n)
  negative zero n f h = absurd (omega arith)
  negative (suc fuel) n f h = more fuel (negsuc n) (ground arith) (
      rw (add_64-negsuc n step (omega arith) word) (
        rw (let e : leb_ℤ (pos (suc n)) (pos step) ≡ true = ground arith in e)
          (past fuel (step - suc n) (omega arith) (omega arith))))

  from : (fuel i : ℕ) → i ≤ max → i + 3 < fuel → Returns fuel (pos i)
  from zero i h f = absurd (omega arith)
  from (suc zero) i h f = absurd (omega arith)
  from (suc (suc fuel)) i h f =
      more (suc fuel) (pos i) (ground arith)
        (elim (Bool-cases (ltb_ℤ (pos (i + step)) (pos 0x8000_0000_0000_0000))) [
          | inl fits ↦
              rw (add_64-fits i step (ground arith))
                (past (suc fuel) (i + step) (omega arith) (omega arith))
          | inr over ↦
              let m = 0xffff_ffff_ffff_ffff - (i + step) in
              let reach : 0x8000_0000_0000_0000 ≤ i + step = ground arith in
              rw (add_64-overflows i step reach (omega arith)) (
                more fuel (negsuc m) (ground arith) (
                  rw (add_64-negsuc m step (omega arith) word)
                    (elim (Bool-cases (leb_ℤ (pos (suc m)) (pos step))) [
                      | inl back ↦
                          let back' : suc m ≤ step = ground arith in
                          rw back (from fuel (step - suc m) (omega arith) (omega arith))
                      | inr below ↦
                          let below' : step < suc m = ground arith in
                          rw below (negative fuel (m - step) (omega arith) (omega arith))
                    ])))
        ])

-- `stepValues` returns for every range of values below 2^32 and every positive step of 64 bits.
pub step_values-total :
    (min max step : ℕ)
    → min ≤ max
    → max < 2 ^ 32
    → 0 < step
    → step < 0x8000_0000_0000_0000
    → (vs : List ℤ) × (step_values min max (pos step) ≡ some vs)
unfolding step_values Returns
step_values-total min max step h m s w =
    elim (Bool-cases (ltb_ℤ (pos (max + step)) (pos 0x8000_0000_0000_0000))) [
      | inl fits ↦
          let (vs, e, _) =
            step_loop-IsStep (step_fuel max) min max step s (ground arith) (omega arith)
              (omega arith) in
          (vs, e)
      | inr over ↦ from max step m (ground arith) w (step_fuel max) min h (omega arith)
    ]

abbrev longest : ℕ
longest = 0x7fff_ffff_ffff_ffff

two_rounds :
    (min max fuel : ℕ)
    → 0 < min
    → min ≤ max
    → max < 2 ^ 32
    → let i = negsuc (0x8000_0000_0000_0000 - min) in
      step_loop (suc (suc fuel)) (pos min) (pos max) (pos longest)
      ≡ in_front
          (pos min)
          (in_front i (step_loop fuel (add_64 i (pos longest)) (pos max) (pos longest)))
two_rounds min max fuel p h m =
    let i = negsuc (0x8000_0000_0000_0000 - min) in
    let e : add_64 (pos min) (pos longest) ≡ i =
      add_64-overflows min longest (omega arith) (omega arith) ∙ ap negsuc (omega arith) in
    rw (
      loop_more (suc fuel) (pos min) (pos max) (pos longest) (ground arith),
      e,
      loop_more fuel i (pos max) (pos longest) (ground arith),
    )

-- The longest step from a value above 0 overflows: the first two values of a range that starts at
-- `min > 0` are then `min` and a negative number.
pub step_values-overflow :
    (min max : ℕ)
    → 0 < min
    → min ≤ max
    → max < 2 ^ 32
    → (vs : List ℤ) × (step_values min max (pos 0x7fff_ffff_ffff_ffff)
        ≡ some (pos min ∷ negsuc (0x8000_0000_0000_0000 - min) ∷ vs))
unfolding step_values
step_values-overflow min max p h m =
    let i = negsuc (0x8000_0000_0000_0000 - min) in
    let rest = step_loop (max + 3) (add_64 i (pos longest)) (pos max) (pos longest) in
    let five : step_fuel max ≡ suc (suc (max + 3)) = omega arith in
    let split : step_values min max (pos longest) ≡ in_front (pos min) (in_front i rest) =
      ap (λ fuel. step_loop fuel (pos min) (pos max) (pos longest)) five
      ∙ two_rounds min max (max + 3) p h m in
    let (all, e) = step_values-total min max longest h m (omega arith) (omega arith) in
    elim (Option-cases rest) [
      | inl r ↦
          let e' : step_values min max (pos longest) ≡ none =
            split ∙ ap (λ o. in_front (pos min) (in_front i o)) r in
          absurd (cc (e, e'))
      | inr (vs, r) ↦ (vs, split ∙ ap (λ o. in_front (pos min) (in_front i o)) r)
    ]
