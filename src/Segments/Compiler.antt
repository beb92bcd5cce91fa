-- ===== src/Segments/Compiler.antt =====
-- services/segments/compiler.py: rules as a query. None stands for an exception, of which the code
-- catches none.
use revenact_backend.Prelude.{
  ℕ, String, Bool, true, false, ◌&&◌, Option, none, some, List, [], ◌∷◌, map, str_eq, if◌then◌else◌,
}
use revenact_backend.Portfolio.Cursors.{Json}
use revenact_backend.Segments.Registry.{
  Kind, customer, account, Op, within_next, op_of, FieldType, Field, takes, Attribute,
  attributes_for, resolve, starts_with, remove_prefix, is_parent, is_excluded,
}
use revenact_backend.Segments.Blocks.{World, any_of, Condition, Entry, leaf, group, Rules, leaves}
use revenact_backend.Segments.Validation.{Reader}
use revenact_backend.Segments.Queries.{
  churned, in_band, Q, test, negated, through, nothing, combine,
}
use revenact_backend.Segments.Outputs.{Compiled, compiled}
use revenact_backend.Segments.Values.{ahead, is_true, typed}
use revenact_backend.Segments.Parts.{
  ◌>>=◌, map_each, choice, owner_q, nps_q, column_ids, organisation_q, account_q, renewing_test,
  column_of,
}

module _ (world : World) where
  open world use {Number}

  abbrev pub is_within_next : Op → Bool
  is_within_next within_next = true
  is_within_next _ = false

  -- The last cases of `_field_q`, by the field's type.
  unfoldable pub type_q :
      Kind → List Attribute → ℕ → Field → FieldType → Op → Json Number → Option (Q Number)
  unfolding column_ids column_of typed starts_with
  type_q kind attributes today field FieldType.record_id op j = column_ids field.column op j
  type_q kind attributes today field type op j = do
    column ← column_of kind attributes field
    typed world type column today (starts_with "attr:" field.key) op j

  unfoldable pub is_owner_type : FieldType → Bool
  is_owner_type FieldType.owner = true
  is_owner_type _ = false

  -- `_field_q`
  unfoldable pub field_q :
      Kind → List Attribute → Reader → ℕ → Field → Op → Json Number → Option (Q Number)
  unfolding choice nps_q is_true ahead renewing_test is_owner_type owner_q organisation_q account_q
      type_q
  field_q kind attributes user today field op j =
      if str_eq field.key "health_category"
      then choice op j (λ part. some (test (in_band part)))
      else if str_eq field.key "nps_band"
      then choice op j nps_q
      else if str_eq field.key "churned"
      then some (if is_true world j then test churned else negated (test churned))
      else if str_eq field.key "renewal_date" && is_within_next op
      then (ahead world today j >>= λ end. some (renewing_test kind end))
      else if is_owner_type field.type
      then choice op j (λ part. some (owner_q part))
      else if str_eq field.key "organisation"
      then organisation_q kind user op j
      else if str_eq field.key "account"
      then account_q user op j
      else type_q kind attributes today field field.type op j

  unfoldable pub op_q :
      Kind → List Attribute → Reader → ℕ → Field → Option Op → Json Number → Option (Q Number)
  unfolding takes field_q
  op_q kind attributes user today field none j = some nothing
  op_q kind attributes user today field (some op) j =
      if takes field op then field_q kind attributes user today field op j else some nothing

  unfoldable pub found_q :
      Kind
      → List Attribute
      → Reader
      → ℕ
      → Option Field
      → Option Op
      → Json Number
      → Option (Q Number)
  unfolding op_q
  found_q kind attributes user today none op j = some nothing
  found_q kind attributes user today (some field) op j = op_q kind attributes user today field op j

  -- `leaf_q` of a key that asks for the record's own field.
  unfoldable pub own_q :
      Kind → List Attribute → Reader → ℕ → String → Option Op → Json Number → Option (Q Number)
  unfolding found_q resolve
  own_q kind attributes user today key op j =
      found_q kind attributes user today (resolve kind key attributes) op j

  -- Whether the filter of a parent's records raises nothing. The ids of records are whole numbers,
  -- which are prepared; a field that does not take the operator compiles to no lookup of the value.
  unfoldable pub is_prepared : Kind → Option Field → Option Op → Json Number → Bool
  unfolding takes
  is_prepared kind none op j = true
  is_prepared kind (some field) none j = true
  is_prepared kind (some field) (some op) j = elim (field.record_type) [
    | some _ ↦ true
    | none ↦ if takes field op then world.prepares kind field op j else true
  ]

  -- One side of `_parent`: the parents of a kind that has the field, filtered by its condition.
  unfoldable pub side :
      Option Field
      → Kind
      → Bool
      → Option (Q Number)
      → Option (List (Q Number))
      → Option (List (Q Number))
  side none kind prepared q sides = sides
  side (some _) kind prepared q sides = do
    condition ← q
    filtered ← if prepared then some condition else none
    rest ← sides
    some (through kind filtered ∷ rest)

  -- The sides of `_parent`, and their combination.
  unfoldable pub sides :
      List Attribute → Reader → ℕ → String → Option Op → Json Number → Option (List (Q Number))
  unfolding side own_q resolve is_prepared
  sides attributes user today key op j =
      side (resolve customer key attributes) customer
        (is_prepared customer (resolve customer key attributes) op j)
        (own_q customer attributes user today key op j)
        (side (resolve account key attributes) account
          (is_prepared account (resolve account key attributes) op j)
          (own_q account attributes user today key op j) (some []))

  unfoldable pub sides_q :
      List Attribute → Reader → ℕ → String → Option Op → Json Number → Option (Q Number)
  unfolding sides combine
  sides_q attributes user today key op j =
      sides attributes user today key op j >>= λ qs. some (combine any_of qs)

  -- `_parent`
  unfoldable pub parent_q :
      List Attribute → Reader → ℕ → String → Option Op → Json Number → Option (Q Number)
  unfolding is_excluded sides_q
  parent_q attributes user today key op j =
      if is_excluded key then some nothing else sides_q attributes user today key op j

  -- `leaf_q`
  unfoldable pub leaf_q : Kind → List Attribute → Reader → ℕ → Condition Number → Option (Q Number)
  unfolding is_parent parent_q own_q remove_prefix
  leaf_q kind attributes user today c =
      if is_parent kind c.field
      then parent_q attributes user today (remove_prefix "parent." c.field) (op_of c.op) c.value
      else own_q kind attributes user today c.field (op_of c.op) c.value

  -- A top-level condition, with the keys that it names.
  unfoldable pub entry_q :
      Kind → List Attribute → Reader → ℕ → Entry Number → Option (List String × Q Number)
  unfolding leaf_q map_each combine
  entry_q kind attributes user today (leaf c) =
      leaf_q kind attributes user today c >>= λ q. some (c.field ∷ [], q)
  entry_q kind attributes user today (group match cs) =
      (map_each (leaf_q kind attributes user today) cs >>= λ qs. some (combine match qs)) >>= λ q.
      some (map (λ c. c.field) cs, q)

  -- `compile_rules`, for the workspace's attributes.
  unfoldable pub compile_rules :
      Rules Number → Kind → List Attribute → Reader → ℕ → Option (Compiled Number)
  unfolding attributes_for leaves map_each entry_q compiled
  compile_rules rules kind workspace user today =
      map_each
        (entry_q kind (attributes_for workspace (map (λ c. c.field) (leaves rules.conditions))) user
          today)
        rules.conditions
      >>= λ conditions. some (compiled rules kind conditions)
