-- ===== src/Scenarios/Conditions.antt =====
-- The clause of a Condition or a Filter node, `evaluate_condition`.
use Prim.Native.String.{◌++◌}
use revenact_backend.Prelude.{
  ℕ, String, Bool, true, false, not, Option, none, some, List, [], ◌∷◌, map, str_eq, ◌==◌,
  if◌then◌else◌, prefix, strip, is_blank, split, member, keep_if, suffix,
}
use revenact_backend.Scenarios.Rows.{
  Value, absent, text, number, Customer, User, State, Data, get, get_or,
}

-- What the engine takes from elsewhere. A `Decimal` is made from a text or raises, and an order of
-- two of them may raise (`InvalidOperation` for a NaN). `semantic` is the match of a phrase by the
-- embedding model, `key` the primary key that a text stands for, if it is one, and `bad_key` what is
-- raised if not, and `delivered` how `send_mail` ends: none, or what it raised.
pub record World : Type 1 where
  pub Decimal : Type 0
  pub decimal : String → Option Decimal
  pub same : Decimal → Decimal → Bool
  pub less : Decimal → Decimal → Option Bool
  pub text_less : String → String → Bool
  pub lower : String → String
  pub occurs : String → String → Bool
  pub quote : Option String → String
  pub show : ℕ → String
  pub key : String → Option ℕ
  pub bad_key : String → String
  pub semantic : Customer → Data → Bool × String
  pub delivered : String → Option String

unfoldable pub find_user : ℕ → List User → Option User
find_user pk [] = none
find_user pk (u ∷ rest) = if u.id == pk then some u else find_user pk rest

unfoldable pub ai_attribute : String → List (String × Value) → Value
ai_attribute api_name [] = absent
ai_attribute api_name ((k, v) ∷ rest) = if str_eq k api_name then v else ai_attribute api_name rest

-- `customer.owner.email if customer.owner_id else None`
unfoldable pub owner_email : State → Value
unfolding find_user
owner_email s = elim (s.customer.owner) [
  | none ↦ absent
  | some pk ↦ elim (find_user pk s.users) [ none ↦ absent | some u ↦ text u.email ]
]

-- Whether a value counts as text: `not isinstance(value, (int, float, Decimal))`.
unfoldable pub is_text : Value → Bool
is_text (number _) = false
is_text _ = true

-- `_read`: the value of an attribute, and whether it is text.
unfoldable pub read : State → String → Value × Bool
unfolding ai_attribute owner_email is_text
read s attribute =
    let c = s.customer in
    if str_eq (prefix 5 attribute) "attr:"
    then (
      ai_attribute (suffix 5 attribute) c.ai_attributes,
      is_text (ai_attribute (suffix 5 attribute) c.ai_attributes),
    )
    else if str_eq attribute "lifecycle_stage"
    then (text c.lifecycle_stage, true)
    else if str_eq attribute "name"
    then (text c.name, true)
    else if str_eq attribute "owner"
    then (owner_email s, true)
    else if str_eq attribute "health_score"
    then (c.health_score, false)
    else if str_eq attribute "nps_score"
    then (c.nps_score, false)
    else if str_eq attribute "arr"
    then (c.arr, false)
    else if str_eq attribute "renewal_days"
    then (c.renewal_days, false)
    else if str_eq attribute "open_tickets"
    then (c.open_tickets, false)
    else (absent, true)

-- `actual in (None, "")`
unfoldable pub is_empty : Value → Bool
is_empty absent = true
is_empty (text t) = str_eq t ""
is_empty (number t) = false

unfoldable pub text_of : Option String → String
text_of none = ""
text_of (some t) = t

module _ (world : World) where
  open world use {Decimal, decimal, same, less, text_less, lower, occurs, quote, semantic}

  -- The parts of a list between commas, stripped and lowered, without the blank ones.
  unfoldable pub wanted : String → List String
  wanted raw = map (λ p. lower (strip p)) (keep_if (λ p. not (is_blank p)) (split 44 raw))

  -- A comparison by its operator: no line for one that is unknown, and no answer where it raises.
  unfoldable pub compare_by :
      {A : Type 0} → (A → A → Bool) → (A → A → Option Bool) → String → A → A → Option (Option Bool)
  compare_by eq lt operator actual expected =
      if str_eq operator "equals"
      then some (some (eq actual expected))
      else if str_eq operator "not_equals"
      then some (some (not (eq actual expected)))
      else if str_eq operator "greater_than"
      then some (lt expected actual)
      else if str_eq operator "less_than"
      then some (lt actual expected)
      else none

  -- What the clause answers after a comparison; none where it raises.
  unfoldable pub answer : String → String → String → Option (Option Bool) → Option (Bool × String)
  answer attribute operator actual none =
      some (false, "Unknown operator " ++ quote (some operator) ++ ".")
  answer attribute operator actual (some none) = none
  answer attribute operator actual (some (some result)) =
      some (result, attribute ++ " = " ++ actual ++ ".")

  -- The comparisons of two texts, and of two decimals.
  unfoldable pub compare_texts : String → String → String → Option String → Option (Bool × String)
  compare_texts attribute operator actual none =
      some (false, quote none ++ " is not comparable with " ++ attribute ++ ".")
  compare_texts attribute operator actual (some expected) =
      answer attribute operator actual
        (compare_by str_eq (λ a b. some (text_less a b)) operator actual expected)

  -- `Decimal(str(actual))`, which raises where the text is no number.
  unfoldable pub compare_decimals :
      String
      → String
      → String
      → Option Decimal
      → Option Decimal
      → Option String
      → Option (Bool × String)
  compare_decimals attribute operator actual none mine raw =
      some (false, quote raw ++ " is not comparable with " ++ attribute ++ ".")
  compare_decimals attribute operator actual (some expected) none raw = none
  compare_decimals attribute operator actual (some expected) (some mine) raw =
      answer attribute operator actual (compare_by same less operator mine expected)

  -- `_coerce` of the saved value, where there is one.
  unfoldable pub expected_decimal : Option String → Option Decimal
  expected_decimal none = none
  expected_decimal (some raw) = decimal raw

  -- The operators that need a value.
  unfoldable pub test_value :
      String → String → String → Bool → Option String → Option (Bool × String)
  test_value attribute operator actual as_text raw =
      if str_eq operator "is_one_of"
      then some (member (lower actual) (wanted (text_of raw)), attribute ++ " = " ++ actual ++ ".")
      else if str_eq operator "contains"
      then some (occurs (lower (text_of raw)) (lower actual), attribute ++ " = " ++ actual ++ ".")
      else if as_text
      then compare_texts attribute operator actual raw
      else compare_decimals attribute operator actual (expected_decimal raw) (decimal actual) raw

  unfoldable pub test_clause :
      String → String → Value → Bool → Option String → Option (Bool × String)
  test_clause attribute operator actual as_text raw =
      if str_eq operator "is_empty"
      then some
          (is_empty actual, attribute ++ (if is_empty actual then " is empty." else " is set."))
      else if str_eq operator "is_not_empty"
      then some (
        not (is_empty actual),
        attribute ++ (if is_empty actual then " is empty." else " is set."),
      )
      else elim actual [
        | absent ↦ some (false, attribute ++ " has no value.")
        | text t ↦ test_value attribute operator t as_text raw
        | number t ↦ test_value attribute operator t as_text raw
      ]

  -- `evaluate_condition`; none where it raises.
  unfoldable pub evaluate_condition : State → Data → Option (Bool × String)
  evaluate_condition s config =
      if str_eq (get_or "conditionKind" "" config) "semantic"
      then some (semantic s.customer config)
      else elim (get "conditionAttribute" config) [
        | none ↦ some (false, "Condition is not configured.")
        | some attribute ↦ elim (get "conditionOperator" config) [
          | none ↦ some (false, "Condition is not configured.")
          | some operator ↦
              test_clause attribute operator (read s attribute).0 (read s attribute).1
                (get "conditionValue" config)
        ]
      ]
