-- ===== src/Segments/Presenting.antt =====
-- services/segments/rules.py: stored rules as a reader may read them.
use revenact_backend.Prelude.{
  String, Bool, true, false, Option, none, some, List, [], ◌∷◌, map, if◌then◌else◌,
}
use revenact_backend.Prelude.Int.{ℤ, eqb_ℤ}
use revenact_backend.Portfolio.Cursors.{Json, null, integer, array, Items, no_items, item}
use revenact_backend.Segments.Registry.{Kind, RecordType, Field, static_field}
use revenact_backend.Segments.Blocks.{Condition, Entry, leaf, group, Rules, leaves}
use revenact_backend.Segments.Validation.{Reader, openable, want}

-- `id in openable`
unfoldable pub is_key : ℤ → List (ℤ × String) → Bool
is_key n [] = false
is_key n ((m, name) ∷ rest) = if eqb_ℤ n m then true else is_key n rest

-- What the ids of a condition's value name.
unfoldable pub named_type : Option Field → Option RecordType
named_type none = none
named_type (some field) = field.record_type

unfoldable pub record_of : Kind → String → Option RecordType
unfolding named_type static_field
record_of kind key = named_type (static_field kind key)

module _ {Number : Type 0} where
  unfoldable mutual
    -- `_redact`
    pub redact : (ℤ → Bool) → Json Number → Json Number
    redact opens (array items) = array (redact_items opens items)
    redact opens (integer n) = if opens n then integer n else null
    redact opens j = j

    pub redact_items : (ℤ → Bool) → Items Number → Items Number
    redact_items opens no_items = no_items
    redact_items opens (item j rest) = item (redact opens j) (redact_items opens rest)

  -- The ids that the conditions name, by the type of the record.
  unfoldable pub refs : Kind → List (Condition Number) → RecordType → List ℤ
  unfolding want record_of
  refs kind [] = λ record_type. []
  refs kind (c ∷ cs) = want (record_of kind c.field) c.value (refs kind cs)

  unfoldable pub redact_named :
      (RecordType → ℤ → Bool) → Option RecordType → Condition Number → Condition Number
  unfolding redact
  redact_named opens none c = c
  redact_named opens (some record_type) c = record c { value = redact (opens record_type) c.value }

  unfoldable pub redact_condition :
      Kind → (RecordType → ℤ → Bool) → Condition Number → Condition Number
  unfolding redact_named record_of
  redact_condition kind opens c = redact_named opens (record_of kind c.field) c

  unfoldable pub redact_entry : Kind → (RecordType → ℤ → Bool) → Entry Number → Entry Number
  unfolding redact_condition
  redact_entry kind opens (leaf c) = leaf (redact_condition kind opens c)
  redact_entry kind opens (group match cs) = group match (map (redact_condition kind opens) cs)

  -- The names, by type and id, of what the rules name and the reader may see: `labels`.
  unfoldable pub names_in : Rules Number → Kind → Reader → RecordType → List (ℤ × String)
  unfolding openable refs leaves
  names_in rules kind user record_type =
      openable record_type (refs kind (leaves rules.conditions) record_type) user

  -- `present_rules`
  unfoldable pub present_rules :
      Rules Number → Kind → Reader → Rules Number × (RecordType → List (ℤ × String))
  unfolding names_in redact_entry is_key
  present_rules rules kind user =
      let names = names_in rules kind user in
      (
        record rules {
          conditions = map (redact_entry kind (λ type n. is_key n (names type))) rules.conditions;
        },
        names,
      )
