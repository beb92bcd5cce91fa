-- ===== src/Segments/Outputs.antt =====
-- services/segments/compiler.py: what rules compile to.
use revenact_backend.Prelude.{
  String, Bool, false, ◌&&◌, ◌||◌, Option, some, List, [], ◌∷◌, ◌++◌, str_eq,
}
use revenact_backend.Portfolio.Cursors.{Json, text, array, Items, no_items, item}
use revenact_backend.Segments.Registry.{Kind, Op, is, in_list, op_of}
use revenact_backend.Segments.Blocks.{Condition, Rules, leaves}
use revenact_backend.Segments.Queries.{Q, combine}

-- `Compiled`; the annotations are the columns of the query.
pub record Compiled (Number : Type 0) : Type 0 where
  pub kind : Kind
  pub q : Q Number
  pub conditions : List (List String × Q Number)
  pub named_keys : List String
  pub names_churned : Bool

module _ {Number : Type 0} where
  -- The keys that the rules name.
  unfoldable pub keys : List (List String × Q Number) → List String
  keys [] = []
  keys ((names, q) ∷ rest) = names ++ keys rest

  unfoldable pub queries : List (List String × Q Number) → List (Q Number)
  queries [] = []
  queries ((names, q) ∷ rest) = q ∷ queries rest

  -- `value == churn`, and `isinstance(value, list) and churn in value`.
  unfoldable pub is_churn : Json Number → Bool
  is_churn (text t) = str_eq t "churn"
  is_churn _ = false

  unfoldable pub has_churn : Items Number → Bool
  unfolding is_churn
  has_churn no_items = false
  has_churn (item j rest) = is_churn j || has_churn rest

  unfoldable pub asks_churn : Option Op → Json Number → Bool
  unfolding is_churn has_churn
  asks_churn (some is) j = is_churn j
  asks_churn (some in_list) (array items) = has_churn items
  asks_churn _ _ = false

  -- `_names_churned`
  unfoldable pub names_churned : List (Condition Number) → Bool
  unfolding asks_churn
  names_churned [] = false
  names_churned (c ∷ cs) =
      str_eq c.field "churned"
      || (str_eq c.field "lifecycle_stage" && asks_churn (op_of c.op) c.value)
      || names_churned cs

  unfoldable pub compiled : Rules Number → Kind → List (List String × Q Number) → Compiled Number
  unfolding keys queries names_churned leaves combine
  compiled rules kind conditions = record {
    kind = kind;
    q = combine rules.match (queries conditions);
    conditions = conditions;
    named_keys = keys conditions;
    names_churned = names_churned (leaves rules.conditions);
  }
