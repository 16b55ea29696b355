-- ===== src/Feature/Flags/Rules.antt =====
-- The first rule that matches decides.
use waffle.Base.{◌≡◌, ◌∙◌, refl, true, false, some, List, [], ◌∷◌, ◌++◌, All}
use waffle.Feature.Values.{Floats}
use waffle.Feature.Flags.{
  Rule, Flag, EvalContext, match_rule, evaluate_rest, evaluate_rules, evaluate,
}

module _ {floats : Floats} (ctx : EvalContext floats) where
  -- None of the rules matches.
  abbrev pub NoMatch : List (Rule floats) → Type 0
  NoMatch rules = All (λ r. match_rule r ctx ≡ some false) rules

  evaluate_rules-append :
      (flag : Flag floats) (before after : List (Rule floats))
      → NoMatch before
      → evaluate_rules (before ++ after) flag ctx ≡ evaluate_rules after flag ctx
  unfolding evaluate_rules
  evaluate_rules-append flag [] after h = refl
  evaluate_rules-append flag (r ∷ before) after (h, hs) =
      rw (h, evaluate_rules) (evaluate_rules-append flag before after hs)

  evaluate_rules-none :
      (flag : Flag floats) (rules : List (Rule floats))
      → NoMatch rules
      → evaluate_rules rules flag ctx ≡ some (evaluate_rest flag ctx)
  unfolding evaluate_rules
  evaluate_rules-none flag [] h = refl
  evaluate_rules-none flag (r ∷ rules) (h, hs) =
      rw (h, evaluate_rules) (evaluate_rules-none flag rules hs)

  -- The first rule that matches decides, whatever the groups, the percentage, the default and the
  -- rules behind it say; where none matches, the rules do not count.
  pub evaluate-append :
      (flag : Flag floats) (before after : List (Rule floats)) (r : Rule floats)
      → NoMatch before
      → match_rule r ctx ≡ some true
      → (evaluate (record flag { rules = before ++ r ∷ after }) ctx ≡ some r.enabled)
        × (evaluate (record flag { rules = before }) ctx ≡ some (evaluate_rest flag ctx))
  unfolding evaluate evaluate_rest
  evaluate-append flag before after r h m =
      let flag' = record flag { rules = before ++ r ∷ after } in
      let first : evaluate_rules (r ∷ after) flag' ctx ≡ some r.enabled =
        rw (m, evaluate_rules) refl in
      (
        evaluate_rules-append flag' before (r ∷ after) h ∙ first,
        evaluate_rules-none (record flag { rules = before }) before h,
      )
