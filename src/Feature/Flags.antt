-- ===== src/Feature/Flags.antt =====
-- Flags and their evaluation in feature.go. Of a flag, the fields that the code reads; a callback
-- `OnEvaluate` only observes. `none` is a panic of a comparison.
pub mod Rules
use waffle.Base.{
  ℕ, Bool, true, false, ◌&&◌, ◌||◌, not, Option, none, some, List, [], ◌∷◌, String, ℤ, pos, ltb_ℤ,
  leb_ℤ, eqb, length, if◌then◌else◌, ◌==◌, Text, comparable_text, comparable_string, Map, lookup,
}
use waffle.Feature.Values.{Floats, Any, nil, text, texts, contains_item, match_operator}
use waffle.Feature.Rollout.{Variant, Selection, selected, nothing, in_percentage, select_variant}

pub record Rule (floats : Floats) : Type 0 where
  pub attribute : String
  pub operator : String
  pub value : Any floats
  pub enabled : Bool
  pub variant : Text

pub record Flag (floats : Floats) : Type 0 where
  pub key : Text
  pub enabled : Bool
  pub rules : List (Rule floats)
  pub percentage : ℤ
  pub groups : List Text
  pub variants : List (Variant (Any floats))
  pub created_at : Option ℤ
  pub updated_at : ℤ

-- A nil map reads as an empty one.
pub record EvalContext (floats : Floats) : Type 0 where
  pub user_id : Text
  pub groups : List Text
  pub attributes : Map String (Any floats)

abbrev pub empty_context : (floats : Floats) → EvalContext floats
empty_context floats = record { user_id = []; groups = []; attributes = [] }

abbrev pub or_nil : {floats : Floats} → Option (Any floats) → Any floats
or_nil none = nil
or_nil (some v) = v

-- Some group of the flag is one of the user's.
unfoldable pub shares_group : List Text → List Text → Bool
shares_group [] user_groups = false
shares_group (g ∷ gs) user_groups =
    let rest = shares_group gs user_groups in if contains_item g user_groups then true else rest

module _ {floats : Floats} where
  unfoldable pub attribute_value : Rule floats → EvalContext floats → Any floats
  attribute_value rule ctx =
      if rule.attribute == "user_id"
      then text ctx.user_id
      else (if rule.attribute == "groups"
          then texts ctx.groups
          else or_nil (lookup rule.attribute ctx.attributes))

  abbrev pub is_nil : Any floats → Bool
  is_nil nil = true
  is_nil _ = false

  unfoldable pub match_rule : Rule floats → EvalContext floats → Option Bool
  unfolding attribute_value match_operator
  match_rule rule ctx =
      let actual = attribute_value rule ctx in
      if is_nil actual then some false else match_operator rule.operator actual rule.value

  -- `evaluate` after the rules.
  unfoldable pub evaluate_rest : Flag floats → EvalContext floats → Bool
  unfolding shares_group in_percentage
  evaluate_rest flag ctx =
      if shares_group flag.groups ctx.groups
      then true
      else (if ltb_ℤ (pos 0) flag.percentage && not (eqb (length ctx.user_id) 0)
          then (if in_percentage flag.key ctx.user_id flag.percentage then true else flag.enabled)
          else flag.enabled)

  unfoldable pub evaluate_rules :
      List (Rule floats) → Flag floats → EvalContext floats → Option Bool
  unfolding evaluate_rest match_rule
  evaluate_rules [] flag ctx = some (evaluate_rest flag ctx)
  evaluate_rules (rule ∷ rules) flag ctx = elim (match_rule rule ctx) [
    | none ↦ none
    | some true ↦ some rule.enabled
    | some false ↦ evaluate_rules rules flag ctx
  ]

  unfoldable pub evaluate : Flag floats → EvalContext floats → Option Bool
  unfolding evaluate_rules
  evaluate flag ctx = evaluate_rules flag.rules flag ctx

  unfoldable pub find_variant : Text → List (Variant (Any floats)) → Option (Variant (Any floats))
  find_variant key [] = none
  find_variant key (v ∷ vs) =
      let rest = find_variant key vs in if v.key == key then some v else rest

  -- The variant of the first rule that names one of the flag's and matches; none of the outer
  -- option is a panic.
  unfoldable pub rule_variant :
      List (Rule floats)
      → List (Variant (Any floats))
      → EvalContext floats
      → Option (Option (Variant (Any floats)))
  unfolding match_rule find_variant
  rule_variant [] variants ctx = some none
  rule_variant (rule ∷ rules) variants ctx =
      let rest = rule_variant rules variants ctx in
      if eqb (length rule.variant) 0 then rest else elim (match_rule rule ctx) [
        | none ↦ none
        | some false ↦ rest
        | some true ↦ elim (find_variant rule.variant variants) [
          | none ↦ rest
          | some v ↦ some (some v)
        ]
      ]

  -- `GetVariant` of a flag that is there.
  unfoldable pub variant_of : Flag floats → EvalContext floats → Option (Selection (Any floats))
  unfolding rule_variant select_variant
  variant_of flag ctx = elim flag.variants [
    | [] ↦ some nothing
    | first ∷ more ↦ elim (rule_variant flag.rules flag.variants ctx) [
      | none ↦ none
      | some (some v) ↦ some (selected v)
      | some none ↦
          if eqb (length ctx.user_id) 0
          then some (selected first)
          else some (select_variant flag.key flag.variants ctx.user_id)
    ]
  ]
