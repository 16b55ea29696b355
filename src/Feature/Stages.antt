-- ===== src/Feature/Stages.antt =====
-- A gradual rollout only grows.
use waffle.Base.{
  ◌≡◌, ◌≢◌, ap, true, false, none, some, List, [], ◌∷◌, ℤ, ◌≤ℤ◌, Text, arith, Option-cases, inl,
  inr,
}
use waffle.Feature.Values.{Floats}
use waffle.Feature.Rollout.{in_percentage}
use waffle.Feature.Flags.{
  Rule, Flag, EvalContext, match_rule, evaluate_rest, evaluate_rules, evaluate,
}

in_percentage_mono :
    (key user : Text) (p q : ℤ)
    → p ≤ℤ q
    → in_percentage key user p ≡ true
    → in_percentage key user q ≡ true
unfolding in_percentage
in_percentage_mono key user p q le h = ground arith

contra : none ≢ some true
contra h = cc

module _ {floats : Floats} (flag : Flag floats) (q : ℤ) (ctx : EvalContext floats)
    (le : flag.percentage ≤ℤ q) where
  rest_mono :
      evaluate_rest flag ctx ≡ true → evaluate_rest (record flag { percentage = q }) ctx ≡ true
  unfolding evaluate_rest
  rest_mono h = ground (arith, in_percentage_mono flag.key ctx.user_id flag.percentage q le)

  rules_mono :
      (rules : List (Rule floats))
      → evaluate_rules rules flag ctx ≡ some true
      → evaluate_rules rules (record flag { percentage = q }) ctx ≡ some true
  unfolding evaluate_rules
  rules_mono [] h = let t : evaluate_rest flag ctx ≡ true = cc h in ap some (rest_mono t)
  rules_mono (r ∷ rules) h = elim (Option-cases (match_rule r ctx)) [
    | inl e ↦ absurd (contra (rw (e, evaluate_rules) at h))
    | inr (true, e) ↦ rw (e, evaluate_rules) (rw (e, evaluate_rules) at h)
    | inr (false, e) ↦ rw (e, evaluate_rules) (rules_mono rules (rw (e, evaluate_rules) at h))
  ]

  -- Where the percentage of a flag is raised, every user that has the flag keeps it.
  pub evaluate-le :
      evaluate flag ctx ≡ some true → evaluate (record flag { percentage = q }) ctx ≡ some true
  unfolding evaluate
  evaluate-le h = rules_mono flag.rules h
