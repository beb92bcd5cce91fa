-- ===== src/Segments/Validation.antt =====
-- services/segments/rules.py: the check of the values, of the fields, and of the records that are named.
use revenact_backend.Prelude.{
  ℕ, suc, String, Bool, true, false, ◌&&◌, not, Option, none, some, List, [], ◌∷◌, length, map,
  str_eq, if◌then◌else◌, size, member, is_some, ltb, leb, ◌==◌,
}
use revenact_backend.Prelude.Int.{ℤ, pos, leb_ℤ}
use revenact_backend.Portfolio.Cursors.{
  Json, null, boolean, integer, real, text, array, Items, no_items, item,
}
use revenact_backend.Segments.Registry.{
  Kind, Op, gt, lt, between, is_empty, is_not_empty, within_next, within_last, is, is_not, in_list,
  op_of, FieldType, Field, takes, RecordType, a_user, a_customer, an_account, a_product, Attribute,
  attributes_for, resolve_any,
}
use revenact_backend.Segments.Blocks.{
  World, Checked, ok, raises, ◌>>=◌, ◌>>◌, require, too_many, unknown_field, wrong_operator,
  bad_value, not_open, takes_no_value, not_a_window, not_two_values, wrong_order, not_a_date,
  not_whole_days, not_a_number, not_a_list_of_values, not_one_of_its_values, not_a_short_text,
  not_true_or_false, not_a_person, not_an_id, Condition, Rules, leaves, check_block, ids_in,
  add_ids, max_conditions, max_days, max_values, max_text,
}

-- What a reader may see named: `name_of record id` is the record's name where they may open it.
pub record Reader : Type 0 where
  pub name_of : RecordType → ℤ → Option String

abbrev pub is_named : Reader → RecordType → ℤ → Bool
is_named reader record_type n = is_some (reader.name_of record_type n)

unfoldable pub named : ℤ → Option String → List (ℤ × String) → List (ℤ × String)
named n none rest = rest
named n (some name) rest = (n, name) ∷ rest

-- `_openable`: the names, by id, of those that the reader may see named.
unfoldable pub openable : RecordType → List ℤ → Reader → List (ℤ × String)
unfolding named
openable record_type [] reader = []
openable record_type (n ∷ ns) reader =
    named n (reader.name_of record_type n) (openable record_type ns reader)

-- A value of a comparison: a day, or the number that was given.
pub data Scalar (Number : Type 0) : Type 0 where
  a_day : ℕ → Scalar Number
  a_number : Json Number → Scalar Number

-- `field.record == record`
unfoldable pub is_for : Option RecordType → RecordType → Bool
is_for (some a_user) a_user = true
is_for (some a_customer) a_customer = true
is_for (some an_account) an_account = true
is_for (some a_product) a_product = true
is_for _ _ = false

module _ {Number : Type 0} where
  -- `_is_number`
  unfoldable pub is_number : Json Number → Bool
  is_number (integer _) = true
  is_number (real _) = true
  is_number _ = false

  unfoldable pub is_days : Json Number → Bool
  is_days (integer (pos _)) = true
  is_days _ = false

  unfoldable pub is_window : Json Number → Bool
  is_window (integer n) = leb_ℤ (pos 1) n && leb_ℤ n max_days
  is_window _ = false

  unfoldable pub is_null : Json Number → Bool
  is_null null = true
  is_null _ = false

  unfoldable pub is_choice : List String → Json Number → Bool
  is_choice choices (text t) = member t choices
  is_choice choices _ = false

  unfoldable pub is_short_text : Json Number → Bool
  is_short_text (text t) = ltb 0 (size t) && leb (size t) max_text
  is_short_text _ = false

  unfoldable pub is_boolean : Json Number → Bool
  is_boolean (boolean _) = true
  is_boolean _ = false

  -- `value is None or _is_int(value)`
  unfoldable pub is_id_or_null : Json Number → Bool
  is_id_or_null null = true
  is_id_or_null (integer _) = true
  is_id_or_null _ = false

  -- `value in (UNASSIGNED, None) or _is_int(value)`
  unfoldable pub is_person : Json Number → Bool
  unfolding is_id_or_null
  is_person (text t) = str_eq t "unassigned"
  is_person j = is_id_or_null j

  unfoldable pub member_as : FieldType → List String → Json Number → Checked Unit
  unfolding is_choice is_short_text is_boolean is_person is_id_or_null
  member_as FieldType.choice choices j =
      require (is_choice choices j) (bad_value not_one_of_its_values)
  member_as FieldType.text choices j = require (is_short_text j) (bad_value not_a_short_text)
  member_as FieldType.boolean choices j = require (is_boolean j) (bad_value not_true_or_false)
  member_as FieldType.owner choices j = require (is_person j) (bad_value not_a_person)
  member_as FieldType.record_id choices j = require (is_id_or_null j) (bad_value not_an_id)
  member_as _ choices j = ok tt

  -- `_member`
  unfoldable pub check_member : Field → Json Number → Checked Unit
  unfolding member_as
  check_member field j = member_as field.type field.choices j

  unfoldable pub check_each : Field → Items Number → Checked Unit
  unfolding check_member
  check_each field no_items = ok tt
  check_each field (item j rest) = check_member field j >> check_each field rest

  unfoldable pub count : Items Number → ℕ
  count no_items = 0
  count (item _ rest) = suc (count rest)

  -- `op == "in"`: a list of 1 to 100 values.
  unfoldable pub check_list : Field → Json Number → Checked Unit
  unfolding count check_each
  check_list field (array items) =
      require (leb 1 (count items) && leb (count items) max_values) (bad_value not_a_list_of_values)
      >> check_each field items
  check_list field _ = raises (bad_value not_a_list_of_values)

  -- `wanted[field.record] |= _ids_in(value)`, for one type of records.
  unfoldable pub want :
      Option RecordType → Json Number → (RecordType → List ℤ) → RecordType → List ℤ
  unfolding is_for add_ids ids_in
  want of j wanted record_type =
      if is_for of record_type then add_ids (ids_in j) (wanted record_type) else wanted record_type

module _ (world : World) where
  open world use {Number, exceeds, is_dashed, from_iso}

  -- `date.fromisoformat(value)`, whose ValueError is caught.
  unfoldable pub day_of : Option ℕ → Checked (Scalar Number)
  day_of none = raises (bad_value not_a_date)
  day_of (some d) = ok (a_day d)

  unfoldable pub scalar_date : Json Number → Checked (Scalar Number)
  unfolding day_of
  scalar_date (text t) = require (is_dashed t) (bad_value not_a_date) >> day_of (from_iso t)
  scalar_date _ = raises (bad_value not_a_date)

  unfoldable pub scalar_as : FieldType → Json Number → Checked (Scalar Number)
  unfolding scalar_date is_days is_number
  scalar_as FieldType.date j = scalar_date j
  scalar_as FieldType.days j = require (is_days j) (bad_value not_whole_days) >> ok (a_number j)
  scalar_as _ j = require (is_number j) (bad_value not_a_number) >> ok (a_number j)

  -- `low > high`, of two values of one field.
  unfoldable pub is_above : Scalar Number → Scalar Number → Bool
  is_above (a_day low) (a_day high) = ltb high low
  is_above (a_number low) (a_number high) = exceeds low high
  is_above _ _ = false

  -- `op == "between"`
  unfoldable pub check_between : FieldType → Json Number → Checked Unit
  unfolding scalar_as is_above
  check_between type (array (item first (item second no_items))) = do
    low ← scalar_as type first
    high ← scalar_as type second
    require (not (is_above low high)) (bad_value wrong_order)
  check_between type _ = raises (bad_value not_two_values)

  -- `_check_value`
  unfoldable pub check_value : Field → Op → Json Number → Checked Unit
  unfolding is_null is_window check_between scalar_as check_list check_member
  check_value field is_empty j = require (is_null j) (bad_value takes_no_value)
  check_value field is_not_empty j = require (is_null j) (bad_value takes_no_value)
  check_value field within_next j = require (is_window j) (bad_value not_a_window)
  check_value field within_last j = require (is_window j) (bad_value not_a_window)
  check_value field between j = check_between field.type j
  check_value field gt j = scalar_as field.type j >> ok tt
  check_value field lt j = scalar_as field.type j >> ok tt
  check_value field in_list j = check_list field j
  check_value field is j = check_member field j
  check_value field is_not j = check_member field j

  unfoldable pub check_op : Field → Option Op → Json Number → Checked Unit
  unfolding takes check_value
  check_op field none j = raises (wrong_operator field)
  check_op field (some op) j =
      require (takes field op) (wrong_operator field) >> check_value field op j

  -- The checks of a condition once its field is looked up; it answers what the field's ids name.
  unfoldable pub check_field : Option Field → Condition Number → Checked (Option RecordType)
  unfolding check_op
  check_field none c = raises (unknown_field c.field)
  check_field (some field) c = check_op field (op_of c.op) c.value >> ok field.record_type

  -- The loop over the conditions, with the ids that they name.
  unfoldable pub check_conditions :
      Kind → List Attribute → List (Condition Number) → Checked (RecordType → List ℤ)
  unfolding check_field resolve_any want
  check_conditions kind attributes [] = ok (λ record_type. [])
  check_conditions kind attributes (c ∷ cs) = do
    record_type ← check_field (resolve_any kind c.field attributes) c
    wanted ← check_conditions kind attributes cs
    ok (want record_type c.value wanted)

  -- `len(_openable(record, ids, user)) == len(ids)`
  unfoldable pub check_open : RecordType → List ℤ → Reader → Checked Unit
  unfolding openable
  check_open record_type ids reader =
      require (length (openable record_type ids reader) == length ids) (not_open record_type)

  -- `validate_rules`
  unfoldable pub validate_rules :
      Json Number → Kind → List Attribute → Reader → Checked (Rules Number)
  unfolding check_block leaves attributes_for check_conditions check_open
  validate_rules j kind workspace user = do
    rules ← check_block j
    require (leb (length (leaves rules.conditions)) max_conditions) too_many
    wanted ←
        check_conditions kind
          (attributes_for workspace (map (λ c. c.field) (leaves rules.conditions)))
          (leaves rules.conditions)
    check_open a_customer (wanted a_customer) user
    check_open an_account (wanted an_account) user
    check_open a_product (wanted a_product) user
    check_open a_user (wanted a_user) user
    ok rules
