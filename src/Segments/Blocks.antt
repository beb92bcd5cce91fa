-- ===== src/Segments/Blocks.antt =====
-- services/segments/rules.py: the check of a segment's rules, and the rules as someone may read them.
use revenact_backend.Prelude.{
  ℕ, String, Bool, true, false, ◌&&◌, ◌||◌, Option, none, some, List, [], ◌∷◌, ◌++◌, str_eq,
  if◌then◌else◌, member,
}
use revenact_backend.Prelude.Int.{ℤ, pos, eqb_ℤ}
use revenact_backend.Portfolio.Cursors.{
  Json, null, integer, text, array, object, Items, no_items, item, Members, no_members, find_key,
}
use revenact_backend.Segments.Registry.{Kind, Op, Field, RecordType}

-- What the code takes from libraries: `low > high` of two numbers, of which the floats are `Number`s;
-- whether a float is zero; the day that is a float of days away; `re.fullmatch(r"\d{4}-\d{2}-\d{2}", value)`;
-- `date.fromisoformat`, a day as its ordinal, none where it raises ValueError. `prepares` says whether
-- Django prepares the lookups of a field, an operator and a value: `filter` does so at once, and raises
-- OverflowError on an integer column and an infinite float, or a float column and too large an integer.
pub record World : Type 1 where
  pub Number : Type 0
  pub exceeds : Json Number → Json Number → Bool
  pub is_zero : Number → Bool
  pub whole_days : Number → Option ℤ
  pub is_dashed : String → Bool
  pub from_iso : String → Option ℕ
  pub prepares : Kind → Field → Op → Json Number → Bool

-- Why a value is refused.
pub data Misuse : Type 0 where
  takes_no_value not_a_window not_two_values wrong_order not_a_date not_whole_days : Misuse
  not_a_number not_a_list_of_values not_one_of_its_values not_a_short_text : Misuse
  not_true_or_false not_a_person not_an_id : Misuse

-- The messages of a RuleError.
pub data RuleError : Type 0 where
  bad_shape bad_match bad_conditions empty_group nested_group bad_leaf too_many : RuleError
  unknown_field : String → RuleError
  wrong_operator : Field → RuleError
  bad_value : Misuse → RuleError
  not_open : RecordType → RuleError

pub data Checked (A : Type 0) : Type 0 where
  ok : A → Checked A
  raises : RuleError → Checked A

infixl 5 ◌>>=◌
abbrev pub ◌>>=◌ : {A B : Type 0} → Checked A → (A → Checked B) → Checked B
ok a >>= f = f a
raises e >>= f = raises e

infixl 5 ◌>>◌
abbrev pub ◌>>◌ : {A B : Type 0} → Checked A → Checked B → Checked B
ok a >> c = c
raises e >> c = raises e

-- `if not test: raise`
abbrev pub require : Bool → RuleError → Checked Unit
require true e = ok tt
require false e = raises e

pub data Match : Type 0 where
  all any_of : Match

-- A condition; where it has no value, reading it gives None.
pub record Condition (Number : Type 0) : Type 0 where
  pub field : String
  pub op : String
  pub value : Json Number

pub data Entry (Number : Type 0) : Type 0 where
  leaf : Condition Number → Entry Number
  group : Match → List (Condition Number) → Entry Number

pub record Rules (Number : Type 0) : Type 0 where
  pub match : Match
  pub conditions : List (Entry Number)

abbrev pub max_conditions : ℕ
max_conditions = 20

abbrev pub max_days : ℤ
max_days = pos 3650

abbrev pub max_values : ℕ
max_values = 100

abbrev pub max_text : ℕ
max_text = 100

unfoldable pub has_id : ℤ → List ℤ → Bool
has_id n [] = false
has_id n (m ∷ ms) = eqb_ℤ n m || has_id n ms

-- `ids | {n}`, and the union of two sets.
unfoldable pub insert_id : ℤ → List ℤ → List ℤ
unfolding has_id
insert_id n ids = if has_id n ids then ids else n ∷ ids

unfoldable pub add_ids : List ℤ → List ℤ → List ℤ
unfolding insert_id
add_ids [] ids = ids
add_ids (n ∷ ns) ids = insert_id n (add_ids ns ids)

module _ {Number : Type 0} where
  unfoldable pub leaves_of : Entry Number → List (Condition Number)
  leaves_of (leaf c) = c ∷ []
  leaves_of (group m cs) = cs

  -- `leaves`: every condition, groups flattened, in order.
  unfoldable pub leaves : List (Entry Number) → List (Condition Number)
  unfolding leaves_of
  leaves [] = []
  leaves (e ∷ es) = leaves_of e ++ leaves es

  -- `set(block) <= keys`
  unfoldable pub only_keys : List String → Members Number → Bool
  only_keys keys no_members = true
  only_keys keys (Members.member k v rest) = member k keys && only_keys keys rest

  unfoldable pub check_parts :
      Option (Json Number)
      → Option (Json Number)
      → Option (Json Number)
      → Checked (Condition Number)
  check_parts (some (text field)) (some (text op)) none =
      ok (record { field = field; op = op; value = null })
  check_parts (some (text field)) (some (text op)) (some value) =
      ok (record { field = field; op = op; value = value })
  check_parts _ _ _ = raises bad_leaf

  unfoldable pub check_leaf : Json Number → Checked (Condition Number)
  unfolding only_keys check_parts find_key
  check_leaf (object members) =
      if only_keys ("field" ∷ "op" ∷ "value" ∷ []) members
      then check_parts (find_key "field" members) (find_key "op" members) (find_key "value" members)
      else raises bad_leaf
  check_leaf _ = raises bad_leaf

  -- The group of `{"group": group}`.
  unfoldable pub group_of : Json Number → Option (Json Number)
  unfolding only_keys find_key
  group_of (object members) =
      if only_keys ("group" ∷ []) members then find_key "group" members else none
  group_of _ = none

  unfoldable pub check_pair :
      Option (Json Number) → Option (Json Number) → Checked (Json Number × Json Number)
  check_pair (some m) (some cs) = ok (m, cs)
  check_pair _ _ = raises bad_shape

  -- The match and the conditions of a block of the right shape.
  unfoldable pub check_shape : Json Number → Checked (Json Number × Json Number)
  unfolding only_keys check_pair find_key
  check_shape (object members) =
      if only_keys ("match" ∷ "conditions" ∷ []) members
      then check_pair (find_key "match" members) (find_key "conditions" members)
      else raises bad_shape
  check_shape _ = raises bad_shape

  unfoldable pub check_match : Json Number → Checked Match
  check_match (text m) =
      if str_eq m "all" then ok all else if str_eq m "any" then ok any_of else raises bad_match
  check_match _ = raises bad_match

  unfoldable pub check_items : Json Number → Checked (Items Number)
  check_items (array items) = ok items
  check_items _ = raises bad_conditions

  -- The conditions of a group, which may not nest.
  unfoldable pub check_members : Items Number → Checked (List (Condition Number))
  unfolding group_of check_leaf
  check_members no_items = ok []
  check_members (item j rest) = elim (group_of j) [
    | some _ ↦ raises nested_group
    | none ↦ do c ← check_leaf j; cs ← check_members rest; ok (c ∷ cs)
  ]

  unfoldable pub has_items : Items Number → Bool
  has_items no_items = false
  has_items (item _ _) = true

  -- `_check_block(block, top=False)`
  unfoldable pub check_group : Json Number → Checked (Entry Number)
  unfolding check_shape check_match check_items check_members has_items
  check_group j = do
    (m, cs) ← check_shape j
    match ← check_match m
    items ← check_items cs
    require (has_items items) empty_group
    conditions ← check_members items
    ok (group match conditions)

  unfoldable pub check_entries : Items Number → Checked (List (Entry Number))
  unfolding group_of check_group check_leaf
  check_entries no_items = ok []
  check_entries (item j rest) = do
    e ← elim (group_of j) [ some g ↦ check_group g | none ↦ check_leaf j >>= λ c. ok (leaf c) ]
    es ← check_entries rest
    ok (e ∷ es)

  -- `_check_block(block, top=True)`
  unfoldable pub check_block : Json Number → Checked (Rules Number)
  unfolding check_shape check_match check_items check_entries
  check_block j = do
    (m, cs) ← check_shape j
    match ← check_match m
    items ← check_items cs
    conditions ← check_entries items
    ok (record { match = match; conditions = conditions })

  unfoldable pub ids_in_items : Items Number → List ℤ
  unfolding insert_id
  ids_in_items no_items = []
  ids_in_items (item (integer n) rest) = insert_id n (ids_in_items rest)
  ids_in_items (item _ rest) = ids_in_items rest

  -- `_ids_in`
  unfoldable pub ids_in : Json Number → List ℤ
  unfolding ids_in_items
  ids_in (array items) = ids_in_items items
  ids_in (integer n) = n ∷ []
  ids_in _ = []
