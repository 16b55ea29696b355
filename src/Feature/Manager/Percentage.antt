-- ===== src/Feature/Manager/Percentage.antt =====
-- The flags of users while a rollout is raised.
use waffle.Base.{
  List, [], ◌∷◌, ◌≡◌, ◌∙◌, sym, refl, true, false, ◌||◌, Option, some, ℤ, pos, ltb_ℤ, ◌≤ℤ◌, Text,
  lookup, insert, lookup-insert, comparable_text, ◌==◌, Option-cases, Bool-cases, inl, inr,
}
use waffle.Feature.Values.{Floats}
use waffle.Feature.Flags.{
  Rule, Flag, EvalContext, evaluate, match_rule, evaluate_rest, evaluate_rules,
}
use waffle.Feature.Stages.{evaluate-le}
use waffle.Feature.Manager.{
  Stores, FlagManager, is_enabled_for, set_percentage, put, or_empty, or_false,
}

module _ {floats : Floats} (flag : Flag floats) (now : ℤ) (ctx : EvalContext floats) where
  rules_updated :
      (rules : List (Rule floats))
      → evaluate_rules rules (record flag { updated_at = now }) ctx ≡ evaluate_rules rules flag ctx
  unfolding evaluate_rules evaluate_rest
  rules_updated [] = refl
  rules_updated (r ∷ rules) = elim (Option-cases (match_rule r ctx)) [
    | inl e ↦ rw (e, evaluate_rules) refl
    | inr (true, e) ↦ rw (e, evaluate_rules) refl
    | inr (false, e) ↦ rw (e, evaluate_rules) (rules_updated rules)
  ]

  evaluate-updated : evaluate (record flag { updated_at = now }) ctx ≡ evaluate flag ctx
  unfolding evaluate
  evaluate-updated = rules_updated flag.rules

module _ {floats : Floats} (stores : Stores floats) (m : FlagManager stores) (now : ℤ)
    (key other : Text) (p : ℤ) (ctx : Option (EvalContext floats)) where
  put_lem :
      (f : Flag floats)
      → ((put stores key f m).0.flags ≡ insert key f m.flags)
        × ((put stores key f m).0.defaults ≡ m.defaults)
  put_lem f = elim (Option-cases m.store) [
    | inl e ↦ rw e (refl, refl)
    | inr (s, e) ↦ rw e (refl, refl)
  ]

  enabled_put :
      (f : Flag floats)
      → lookup key m.flags ≡ some f
      → f.percentage ≤ℤ p
      → is_enabled_for stores other ctx m ≡ some true
      → is_enabled_for stores other ctx
          (put stores key (record f { percentage = p; updated_at = now }) m).0
        ≡ some true
  unfolding is_enabled_for
  enabled_put f l le h =
      let f' : Flag floats = record f { percentage = p; updated_at = now } in
      let (flags, defaults) = put_lem f' in
      let found = lookup-insert key other f' m.flags in
      elim (Bool-cases (key == other)) [
        | inl t ↦
            let same : key ≡ other = (comparable_text.equals_iff key other).0 t in
            let before : evaluate f (or_empty ctx) ≡ some true =
              rw (sym same, l, is_enabled_for) at h in
            let after : evaluate f' (or_empty ctx) ≡ some true =
              evaluate-updated (record f { percentage = p }) now (or_empty ctx)
              ∙ evaluate-le f p (or_empty ctx) le before in
            rw (flags, found, t, is_enabled_for) after
        | inr n ↦ elim (Option-cases (lookup other m.flags)) [
          | inl a ↦
              let before : some (or_false (lookup other m.defaults)) ≡ some true =
                rw (a, is_enabled_for) at h in
              rw (flags, found, n, a, defaults, is_enabled_for) before
          | inr (g, a) ↦
              let before : evaluate g (or_empty ctx) ≡ some true = rw (a, is_enabled_for) at h in
              rw (flags, found, n, a, is_enabled_for) before
        ]
      ]

  -- Where SetPercentage does not lower a rollout, no user loses a flag: each flag that is enabled
  -- for a user stays enabled for that user.
  pub is_enabled_for-set_percentage :
      ((f : Flag floats) → lookup key m.flags ≡ some f → f.percentage ≤ℤ p)
      → is_enabled_for stores other ctx m ≡ some true
      → is_enabled_for stores other ctx (set_percentage stores now key p m).0 ≡ some true
  unfolding is_enabled_for set_percentage
  is_enabled_for-set_percentage le h = elim (Bool-cases (ltb_ℤ p (pos 0) || ltb_ℤ (pos 100) p)) [
    | inl e ↦ rw e h
    | inr e ↦ elim (Option-cases (lookup key m.flags)) [
      | inl l ↦ rw (e, l, set_percentage) h
      | inr (f, l) ↦ rw (e, l, set_percentage) (enabled_put f l (le f l) h)
    ]
  ]
