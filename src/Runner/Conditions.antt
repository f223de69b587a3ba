-- ===== src/Runner/Conditions.antt =====
-- lib/dag/runner.ts: `evaluateConditions` and `applyTransform`.
use b2b_app.Prelude.{
  String, Bool, true, false, not, Option, none, some, List, [], ◌∷◌, if◌then◌else◌, str_eq, Result,
  ok, err, ◌>>=◌, get_or,
}
use b2b_app.Json.{Value, undefined, null, bool, num, str, arr, obj, Items, nil, cons, end, Js}
use b2b_app.JsonPath.{Thrown, text_error, Lookup, found, not_found, get_path, set_path}
use b2b_app.Workflow.{
  FilterOperator, FilterCondition, all_of, any_of, FilterConfig, TransformMapping, TransformConfig,
}

module _ (js : Js) where
  open js use {Number, lt, le, eq, to_text, includes, starts_with, ends_with, regex_test}

  -- a === b. The operands are never the same object: one is part of the workflow's definition,
  -- and the other of an event or of what was made from it.
  abbrev pub strict_eq : Value Number → Value Number → Bool
  strict_eq undefined undefined = true
  strict_eq null null = true
  strict_eq (bool true) (bool b) = b
  strict_eq (bool false) (bool b) = not b
  strict_eq (num m) (num n) = eq m n
  strict_eq (str s) (str t) = str_eq s t
  strict_eq _ _ = false

  abbrev both_numbers : (Number → Number → Bool) → Value Number → Value Number → Bool
  both_numbers test (num m) (num n) = test m n
  both_numbers test _ _ = false

  -- String(rhs ?? ""); `none` where it throws.
  abbrev text_of : Value Number → Option String
  text_of undefined = to_text (str "")
  text_of null = to_text (str "")
  text_of v = to_text v

  -- A test of a text against `text_of rhs`.
  abbrev with_text : (String → String → Bool) → String → Option String → Result Thrown Bool
  with_text test s none = err text_error
  with_text test s (some t) = ok (test s t)

  abbrev on_text : (String → Result Thrown Bool) → Value Number → Result Thrown Bool
  on_text test (str s) = test s
  on_text test _ = ok false

  -- new RegExp(String(rhs ?? "")).test(s), with the `catch` around it.
  abbrev regex_matches : Option String → String → Bool
  regex_matches none s = false
  regex_matches (some p) s = get_or (regex_test p s) false

  abbrev some_item : Items Number → Value Number → Bool
  some_item nil v = false
  some_item (cons w ws) v = if strict_eq w v then true else some_item ws v

  abbrev contains_value : Value Number → Value Number → Result Thrown Bool
  contains_value (str s) rhs = with_text includes s (text_of rhs)
  contains_value (arr vs) rhs = ok (some_item vs rhs)
  contains_value _ rhs = ok false

  abbrev value_of : Lookup Number → Value Number
  value_of (found v) = v
  value_of not_found = undefined

  abbrev was_found : Lookup Number → Bool
  was_found (found v) = true
  was_found not_found = false

  -- The switch of `evaluate`.
  unfoldable pub test_operator : FilterOperator → Lookup Number → Value Number → Result Thrown Bool
  test_operator FilterOperator.exists lookup rhs = ok (was_found lookup)
  test_operator FilterOperator.not_exists lookup rhs = ok (not (was_found lookup))
  test_operator FilterOperator.eq lookup rhs = ok (strict_eq (value_of lookup) rhs)
  test_operator FilterOperator.neq lookup rhs = ok (not (strict_eq (value_of lookup) rhs))
  test_operator FilterOperator.gt lookup rhs =
      ok (both_numbers (λ l r. lt r l) (value_of lookup) rhs)
  test_operator FilterOperator.gte lookup rhs =
      ok (both_numbers (λ l r. le r l) (value_of lookup) rhs)
  test_operator FilterOperator.lt lookup rhs = ok (both_numbers lt (value_of lookup) rhs)
  test_operator FilterOperator.lte lookup rhs = ok (both_numbers le (value_of lookup) rhs)
  test_operator FilterOperator.contains lookup rhs = contains_value (value_of lookup) rhs
  test_operator FilterOperator.starts_with lookup rhs =
      on_text (λ s. with_text starts_with s (text_of rhs)) (value_of lookup)
  test_operator FilterOperator.ends_with lookup rhs =
      on_text (λ s. with_text ends_with s (text_of rhs)) (value_of lookup)
  test_operator FilterOperator.regex lookup rhs =
      on_text (λ s. ok (regex_matches (text_of rhs) s)) (value_of lookup)

  unfoldable pub evaluate : Value Number → FilterCondition Number → Result Thrown Bool
  evaluate root c = do lookup ← get_path js root c.path; test_operator c.operator lookup c.value

  -- conditions.some(evaluate)
  unfoldable pub some_condition : Value Number → List (FilterCondition Number) → Result Thrown Bool
  some_condition root [] = ok false
  some_condition root (c ∷ cs) =
      let rest = some_condition root cs in
      evaluate root c >>= λ holds. if holds then ok true else rest

  -- conditions.every(evaluate)
  unfoldable pub every_condition : Value Number → List (FilterCondition Number) → Result Thrown Bool
  every_condition root [] = ok true
  every_condition root (c ∷ cs) =
      let rest = every_condition root cs in
      evaluate root c >>= λ holds. if holds then rest else ok false

  unfoldable pub evaluate_conditions : FilterConfig Number → Value Number → Result Thrown Bool
  evaluate_conditions config root = elim config.mode [
    | any_of ↦ some_condition root config.conditions
    | all_of ↦ every_condition root config.conditions
  ]

  abbrev found_or_null : Lookup Number → Value Number
  found_or_null (found v) = v
  found_or_null not_found = null

  -- The loop over the mappings, from the output so far.
  unfoldable pub apply_mappings :
      Value Number → List TransformMapping → Value Number → Result Thrown (Value Number)
  apply_mappings root [] output = ok output
  apply_mappings root (m ∷ ms) output = do
    lookup ← get_path js root m.source
    output' ← set_path js output m.target (found_or_null lookup)
    apply_mappings root ms output'

  unfoldable pub apply_transform : TransformConfig → Value Number → Result Thrown (Value Number)
  apply_transform config root = apply_mappings root config.mappings (obj end)
