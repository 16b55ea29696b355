-- ===== src/Feature/Examples.antt =====
-- Flags over whole numbers, evaluated.
use mathlib.Core.Option
use mathlib.Core.Path.{subst}
use waffle.Base.{
  ℕ, ◌≡◌, ◌+◌, ◌%◌, ◌^◌, ◌<◌, refl, Bool, true, false, none, some, List, [], ◌∷◌, ◌++◌, ℤ, pos,
  eqb_ℤ, ltb_ℤ, Text, lookup, insert, erase, comparable_text, text_eq, comparable_string, ◌≤ℤ◌,
  arith,
}
use waffle.Feature.Values.{Floats, text, texts, match_operator, compare_equal}
use waffle.Feature.Rollout.{Variant, fnv_32a, fnv_from, in_percentage, total_weight, colon_variant}
use waffle.Feature.Flags.{
  Rule, Flag, EvalContext, match_rule, evaluate, evaluate_rules, evaluate_rest, attribute_value,
  shares_group,
}
use waffle.Feature.Manager.{
  memory_store, new_memory_manager, new_manager, register, set_default, set_enabled, set_percentage,
  delete, reload, get, is_enabled_for, add_all, FlagManager,
}
use waffle.Feature.Manager.Reloads.{
  Op, register_op, enabled_op, percentage_op, delete_op, reload_op, step, run, get-reload,
}
use waffle.Feature.Manager.Percentage.{is_enabled_for-set_percentage}

abbrev whole : Floats
whole = record { Float = ℤ; of_int = λ n. n; is_equal = eqb_ℤ; is_less = ltb_ℤ }

abbrev foobar : Text
foobar = b'f' ∷ b'o' ∷ b'o' ∷ b'b' ∷ b'a' ∷ b'r' ∷ []

-- The values that the authors of FNV publish for "" and "foobar".
fnv_32a_empty : fnv_32a [] ≡ 0x811c9dc5
unfolding fnv_32a fnv_from
fnv_32a_empty = refl

fnv_32a-foobar : fnv_32a foobar ≡ 0xbf9cf968
unfolding fnv_32a fnv_from
fnv_32a-foobar = refl

-- "10.0" and "9.0"
abbrev ten : Text
ten = b'1' ∷ b'0' ∷ b'.' ∷ b'0' ∷ []

abbrev nine : Text
nine = b'9' ∷ b'.' ∷ b'0' ∷ []

-- Two slices cannot be compared.
slices : compare_equal {floats = whole} (texts []) (texts []) ≡ none
unfolding compare_equal
slices = refl

abbrev red : Variant ℕ
red = record { key = b'r' ∷ []; value = 1; weight = pos 30 }

abbrev blue : Variant ℕ
blue = record { key = b'b' ∷ []; value = 2; weight = pos 70 }

weights : total_weight (red ∷ blue ∷ []) ≡ 100
unfolding total_weight
weights = refl

hashed :
    fnv_32a (foobar ++ (colon_variant ++ nine)) % total_weight (red ∷ blue ∷ [])
    ≡ total_weight (red ∷ []) + 66
unfolding fnv_32a fnv_from total_weight
hashed = refl

in_word : total_weight (red ∷ blue ∷ []) < 2 ^ 32
in_word = rw weights (omega arith)

abbrev rule : Text → Bool → Rule whole
rule country enabled = record {
  attribute = "country";
  operator = "eq";
  value = text country;
  enabled = enabled;
  variant = [];
}

abbrev flag : Flag whole
flag = record {
  key = foobar;
  enabled = false;
  rules = [];
  percentage = pos 10;
  groups = [];
  variants = [];
  created_at = none;
  updated_at = pos 0;
}

abbrev user : EvalContext whole
user = record { user_id = nine; groups = []; attributes = ("country", text ten) ∷ [] }

no_match : match_rule (rule nine true) user ≡ some false
unfolding match_rule attribute_value match_operator compare_equal lookup text_eq
no_match = refl

match : match_rule (rule ten true) user ≡ some true
unfolding match_rule attribute_value match_operator compare_equal lookup text_eq
match = refl

abbrev rules : List (Rule whole)
rules = rule nine true ∷ rule ten true ∷ rule ten false ∷ []

abbrev manager : FlagManager (memory_store whole)
manager = new_memory_manager whole

abbrev ops : List (Op whole)
ops =
    register_op (pos 1) flag
    ∷ enabled_op (pos 2) foobar true
    ∷ percentage_op (pos 3) foobar (pos 101)
    ∷ percentage_op (pos 4) foobar (pos 20)
    ∷ delete_op nine
    ∷ reload_op
    ∷ []

program : Unit {0}
unfolding new_manager register set_default set_enabled set_percentage delete reload add_all step run
    lookup insert erase get is_enabled_for evaluate evaluate_rules evaluate_rest in_percentage
    shares_group fnv_32a fnv_from text_eq
program = tt

abbrev changed : Flag whole
changed = record flag {
  enabled = true;
  percentage = pos 20;
  created_at = some (pos 1);
  updated_at = pos 4;
}

found : get (memory_store whole) foobar (run ops manager) ≡ some changed
unfolding program
found = refl

get-reload_example :
    let m = run ops manager in
    ((reload (memory_store whole) m).1 ≡ none)
    × (get (memory_store whole) foobar (reload (memory_store whole) m).0
        ≡ get (memory_store whole) foobar m)
    × (get (memory_store whole) foobar (new_manager (memory_store whole) m.store)
        ≡ get (memory_store whole) foobar m)
get-reload_example = get-reload ops foobar

before : is_enabled_for (memory_store whole) foobar (some user) (run ops manager) ≡ some true
unfolding program
before = refl

bound : (f : Flag whole) → lookup foobar (run ops manager).flags ≡ some f → f.percentage ≤ℤ pos 30
unfolding program
bound f h =
    let small : changed.percentage ≤ℤ pos 30 = omega arith in
    subst (λ (g : Flag whole). g.percentage ≤ℤ pos 30) (Option.some-injective changed f h) small

is_enabled_for-set_percentage_example :
    is_enabled_for
      (memory_store whole)
      foobar
      (some user)
      (set_percentage (memory_store whole) (pos 5) foobar (pos 30) (run ops manager)).0
    ≡ some true
is_enabled_for-set_percentage_example =
    is_enabled_for-set_percentage (memory_store whole) (run ops manager) (pos 5) foobar foobar
      (pos 30) (some user) bound before
