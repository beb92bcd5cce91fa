-- ===== src/Segments/Parts.antt =====
-- services/segments/compiler.py: the parts of a condition's query. None stands for an exception, of
-- which the code catches none.
use revenact_backend.Prelude.{
  ℕ, String, Bool, true, false, ◌&&◌, Option, none, some, List, [], ◌∷◌, str_eq, if◌then◌else◌, leb,
  member,
}
use revenact_backend.Prelude.Int.{ℤ, pos, negsuc}
use revenact_backend.Portfolio.Cursors.{
  Json, null, integer, text, array, object, Items, no_items, item, Members, no_members,
}
use revenact_backend.Segments.Registry.{
  Kind, customer, account, Op, is, is_not, in_list, Field, RecordType, a_customer, an_account,
  Attribute, ValueType, find_attribute, starts_with, remove_prefix, nps_bands,
}
use revenact_backend.Segments.Blocks.{any_of}
use revenact_backend.Segments.Validation.{Reader, is_named}
use revenact_backend.Segments.Queries.{
  Column, plain_column, converted_arr, seat_use, open_tickets, last_contact, last_account_contact,
  attribute_number, attribute_value, unowned, in_nps, renewing, account_renewing, owned_by,
  column_in, linked_to, own_customer, through_account, on_account, Q, test, either, negated,
  nothing, combine,
}

infixl 5 ◌>>=◌
abbrev pub ◌>>=◌ : {A B : Type 0} → Option A → (A → Option B) → Option B
none >>= f = none
some a >>= f = f a

-- `date.max.toordinal()`
abbrev pub max_date : ℕ
max_date = 3652059

unfoldable pub is_list : Op → Bool
is_list in_list = true
is_list _ = false

unfoldable pub is_negative : Op → Bool
is_negative is_not = true
is_negative _ = false

-- The day with an ordinal; OverflowError where there is none.
unfoldable pub date_at : ℤ → Option ℕ
date_at (pos n) = if leb 1 n && leb n max_date then some n else none
date_at (negsuc n) = none

-- What a query reads of an attribute.
unfoldable pub answer_column : ValueType → ℕ → Column
answer_column ValueType.number pk = attribute_number pk
answer_column _ pk = attribute_value pk

unfoldable pub attribute_column : Option Attribute → Option Column
unfolding answer_column
attribute_column none = none
attribute_column (some a) = some (answer_column a.value_type a.pk)

unfoldable pub map_each : {A B : Type 0} → (A → Option B) → List A → Option (List B)
map_each f [] = some []
map_each f (x ∷ xs) = do b ← f x; bs ← map_each f xs; some (b ∷ bs)

unfoldable pub touch_column : Kind → Column
touch_column customer = last_contact
touch_column _ = last_account_contact

-- The last cases of `_column`, by whether the key names an attribute.
unfoldable pub keyed_column : Bool → List Attribute → Field → Option Column
unfolding remove_prefix find_attribute attribute_column
keyed_column true attributes field =
    attribute_column (find_attribute (remove_prefix "attr:" field.key) attributes)
keyed_column false attributes field = some (plain_column field.column)

-- `_column`
unfoldable pub column_of : Kind → List Attribute → Field → Option Column
unfolding touch_column starts_with keyed_column
column_of kind attributes field =
    if str_eq field.key "arr"
    then some (elim kind [ customer ↦ converted_arr | _ ↦ plain_column field.column ])
    else if str_eq field.key "seat_use"
    then some seat_use
    else if str_eq field.key "open_tickets"
    then some open_tickets
    else if str_eq field.key "last_touch"
    then some (touch_column kind)
    else keyed_column (starts_with "attr:" field.key) attributes field

module _ {Number : Type 0} where
  unfoldable pub list_of : Items Number → List (Json Number)
  list_of no_items = []
  list_of (item j rest) = j ∷ list_of rest

  unfoldable pub letters : String → List (Json Number)
  letters String.[] = []
  letters (String.◌∷◌ c s) = text (String.◌∷◌ c String.[]) ∷ letters s

  unfoldable pub keys_of : Members Number → List (Json Number)
  keys_of no_members = []
  keys_of (Members.member k v rest) = text k ∷ keys_of rest

  -- `iter(value)`, TypeError where the value is no list, text or object.
  unfoldable pub iterate : Json Number → Option (List (Json Number))
  unfolding list_of letters keys_of
  iterate (array items) = some (list_of items)
  iterate (text t) = some (letters t)
  iterate (object members) = some (keys_of members)
  iterate _ = none

  -- `low, high = value`
  unfoldable pub pair_of : Option (List (Json Number)) → Option (Json Number × Json Number)
  pair_of (some (low ∷ high ∷ [])) = some (low, high)
  pair_of _ = none

  unfoldable pub values : Bool → Json Number → Option (List (Json Number))
  unfolding iterate
  values true j = iterate j
  values false j = some (j ∷ [])

  -- Without None.
  unfoldable pub present : List (Json Number) → List (Json Number)
  present [] = []
  present (null ∷ js) = present js
  present (j ∷ js) = j ∷ present js

  -- The values that are not None of `value if op == "in" else [value]`.
  unfoldable pub ids_of : Op → Json Number → Option (List (Json Number))
  unfolding values present is_list
  ids_of op j = values (is_list op) j >>= λ js. some (present js)

  -- The ids of a list that the viewer may open.
  unfoldable pub opened : RecordType → Reader → List (Json Number) → List ℤ
  opened type user [] = []
  opened type user (integer n ∷ js) =
      let rest = opened type user js in if is_named user type n then n ∷ rest else rest
  opened type user (j ∷ js) = opened type user js

  -- `Compiler._openable`
  unfoldable pub openable_ids : RecordType → Reader → Op → Json Number → Option (List ℤ)
  unfolding ids_of opened
  openable_ids type user op j = ids_of op j >>= λ js. some (opened type user js)

  -- `~q if op == "is_not" else q`
  unfoldable pub negate_if : Bool → Q Number → Q Number
  negate_if true q = negated q
  negate_if false q = q

  -- `_choice`
  unfoldable pub choice : Op → Json Number → (Json Number → Option (Q Number)) → Option (Q Number)
  unfolding iterate map_each combine
  choice is j q_for = q_for j
  choice is_not j q_for = q_for j >>= λ q. some (negated q)
  choice in_list j q_for = do js ← iterate j; qs ← map_each q_for js; some (combine any_of qs)
  choice _ j q_for = some nothing

  -- `_owner`
  unfoldable pub owner_q : Json Number → Q Number
  owner_q (text t) = if str_eq t "unassigned" then test unowned else test (owned_by (text t))
  owner_q null = nothing
  owner_q j = test (owned_by j)

  -- `NPS_Q.__getitem__`, KeyError where there is no such band.
  unfoldable pub nps_q : Json Number → Option (Q Number)
  nps_q (text t) = if member t nps_bands then some (test (in_nps t)) else none
  nps_q _ = none

  -- `_ids`
  unfoldable pub column_ids : String → Op → Json Number → Option (Q Number)
  unfolding ids_of negate_if is_negative
  column_ids column op j =
      ids_of op j >>= λ js. some (negate_if (is_negative op) (test (column_in column js)))

  -- `_organisation`, by the kind of the compiler.
  unfoldable pub organisation_hit : Kind → List ℤ → Q Number
  organisation_hit account ids = test (linked_to ids)
  organisation_hit _ ids = either (test (own_customer ids)) (test (through_account ids))

  unfoldable pub organisation_q : Kind → Reader → Op → Json Number → Option (Q Number)
  unfolding openable_ids organisation_hit negate_if is_negative
  organisation_q kind user op j = openable_ids a_customer user op j >>= λ ids.
      some (negate_if (is_negative op) (organisation_hit kind ids))

  -- `_account`
  unfoldable pub account_q : Reader → Op → Json Number → Option (Q Number)
  unfolding openable_ids negate_if is_negative
  account_q user op j = openable_ids an_account user op j >>= λ ids.
      some (negate_if (is_negative op) (test (on_account ids)))

  unfoldable pub renewing_test : Kind → ℕ → Q Number
  renewing_test customer day = test (renewing day)
  renewing_test _ day = test (account_renewing day)
