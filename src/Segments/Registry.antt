-- ===== src/Segments/Registry.antt =====
-- services/segments/registry.py: the fields that a rule may name, by kind, and their operators.
use revenact_backend.Prelude.{
  ℕ, String, Bool, true, false, ◌&&◌, ◌||◌, Option, none, some, List, [], ◌∷◌, ◌++◌, str_eq,
  if◌then◌else◌, prefix, suffix, size, member, keep_if,
}

-- `Segment.Kind`
pub data Kind : Type 0 where
  customer account contact : Kind

pub data FieldType : Type 0 where
  number percent days date choice text boolean owner record_id : FieldType

pub data Op : Type 0 where
  gt lt between is_empty is_not_empty within_next within_last is is_not in_list : Op

-- What an id in a value names.
pub data RecordType : Type 0 where
  a_user a_customer an_account a_product : RecordType

unfoldable pub op_of : String → Option Op
op_of name =
    if str_eq name "gt"
    then some gt
    else if str_eq name "lt"
    then some lt
    else if str_eq name "between"
    then some between
    else if str_eq name "is_empty"
    then some is_empty
    else if str_eq name "is_not_empty"
    then some is_not_empty
    else if str_eq name "within_next"
    then some within_next
    else if str_eq name "within_last"
    then some within_last
    else if str_eq name "is"
    then some is
    else if str_eq name "is_not"
    then some is_not
    else if str_eq name "in"
    then some in_list
    else none

-- `op in OPERATORS[type]`
unfoldable pub operators : FieldType → Op → Bool
operators FieldType.number gt = true
operators FieldType.number lt = true
operators FieldType.number between = true
operators FieldType.number is_empty = true
operators FieldType.number is_not_empty = true
operators FieldType.percent gt = true
operators FieldType.percent lt = true
operators FieldType.percent between = true
operators FieldType.percent is_empty = true
operators FieldType.percent is_not_empty = true
operators FieldType.days gt = true
operators FieldType.days lt = true
operators FieldType.days between = true
operators FieldType.days is_empty = true
operators FieldType.date within_next = true
operators FieldType.date within_last = true
operators FieldType.date gt = true
operators FieldType.date lt = true
operators FieldType.date between = true
operators FieldType.date is_empty = true
operators FieldType.date is_not_empty = true
operators FieldType.choice is = true
operators FieldType.choice is_not = true
operators FieldType.choice in_list = true
operators FieldType.text is = true
operators FieldType.text is_not = true
operators FieldType.text in_list = true
operators FieldType.text is_empty = true
operators FieldType.text is_not_empty = true
operators FieldType.boolean is = true
operators FieldType.owner is = true
operators FieldType.owner is_not = true
operators FieldType.owner in_list = true
operators FieldType.record_id is = true
operators FieldType.record_id is_not = true
operators FieldType.record_id in_list = true
operators _ _ = false

-- A field, without its label.
pub record Field : Type 0 where
  pub key : String
  pub type : FieldType
  pub column : String
  pub choices : List String
  pub record_type : Option RecordType
  pub optional : Bool

unfoldable pub is_emptiness : Op → Bool
is_emptiness is_empty = true
is_emptiness is_not_empty = true
is_emptiness _ = false

-- `op in field.operators`
unfoldable pub takes : Field → Op → Bool
unfolding operators is_emptiness
takes field op = operators field.type op || (field.optional && is_emptiness op)

abbrev pub plain : String → FieldType → String → Field
plain key type column = record {
  key = key;
  type = type;
  column = column;
  choices = [];
  record_type = none;
  optional = false;
}

abbrev pub choosing : String → String → List String → Field
choosing key column choices = record (plain key FieldType.choice column) { choices = choices }

abbrev pub naming : String → FieldType → String → RecordType → Field
naming key type column of = record (plain key type column) { record_type = some of }

abbrev pub owner_field : Field
owner_field = naming "owner" FieldType.owner "owner" a_user

abbrev pub product_field : Field
product_field = naming "product" FieldType.record_id "primary_product_id" a_product

abbrev pub organisation_field : Field
organisation_field = naming "organisation" FieldType.record_id "" a_customer

abbrev pub account_field : Field
account_field = naming "account" FieldType.record_id "" an_account

unfoldable pub lifecycle_stages : List String
lifecycle_stages =
    "onboarding" ∷ "kickoff" ∷ "adoption" ∷ "live" ∷ "renewal" ∷ "churn" ∷ "expansion" ∷ "other"
    ∷ []

abbrev pub nps_bands : List String
nps_bands = "promoter" ∷ "passive" ∷ "detractor" ∷ []

abbrev pub nps_field : Field
nps_field = choosing "nps_band" "" nps_bands

unfoldable pub shared : List Field
unfolding lifecycle_stages
shared =
    choosing "lifecycle_stage" "lifecycle_stage" lifecycle_stages
    ∷ plain "health_score" FieldType.number "health_score"
    ∷ choosing "health_category" "" ("good" ∷ "average" ∷ "poor" ∷ [])
    ∷ plain "csat_score" FieldType.percent "csat_score"
    ∷ plain "nps_score" FieldType.number "nps_score"
    ∷ nps_field
    ∷ plain "arr" FieldType.number "arr"
    ∷ plain "renewal_date" FieldType.date "renewal_date"
    ∷ owner_field
    ∷ plain "open_tickets" FieldType.number ""
    ∷ plain "last_touch" FieldType.days ""
    ∷ plain "ai_pulse" FieldType.number "ai_pulse_value"
    ∷ plain "csm_pulse" FieldType.number "csm_pulse_score"
    ∷ plain "created" FieldType.date "created_at__date"
    ∷ []

unfoldable pub contact_fields : List Field
contact_fields =
    choosing "role" "role" (
      "executive_sponsor" ∷ "champion" ∷ "economic_buyer" ∷ "technical_lead" ∷ "decision_maker"
      ∷ "influencer" ∷ "finance_manager" ∷ "other" ∷ [])
    ∷ choosing "sentiment" "sentiment" ("positive" ∷ "neutral" ∷ "negative" ∷ [])
    ∷ choosing "status" "status" ("active" ∷ "inactive" ∷ [])
    ∷ plain "language" FieldType.text "language"
    ∷ plain "last_contacted" FieldType.days "last_contacted_at__date"
    ∷ organisation_field
    ∷ account_field
    ∷ []

-- What only an organisation has, and what only an account has.
unfoldable pub customer_only : List Field
customer_only =
    plain "ces_percentage" FieldType.percent "ces_percentage"
    ∷ product_field
    ∷ plain "seat_use" FieldType.percent ""
    ∷ plain "churned" FieldType.boolean ""
    ∷ plain "archived" FieldType.boolean "is_archived"
    ∷ []

unfoldable pub account_only : List Field
account_only = organisation_field ∷ []

-- `FIELDS[kind]`
unfoldable pub fields : Kind → List Field
unfolding shared customer_only account_only contact_fields
fields customer = shared ++ customer_only
fields account = shared ++ account_only
fields contact = contact_fields

-- `FIELDS[kind].get(key)`
unfoldable pub find_field : String → List Field → Option Field
find_field key [] = none
find_field key (f ∷ rest) = if str_eq key f.key then some f else find_field key rest

unfoldable pub starts_with : String → String → Bool
starts_with start s = str_eq (prefix (size start) s) start

-- `s.removeprefix(start)`
unfoldable pub remove_prefix : String → String → String
unfolding starts_with
remove_prefix start s = if starts_with start s then suffix (size start) s else s

pub data ValueType : Type 0 where
  text number boolean picklist : ValueType

-- `AIAttribute`, with the columns that a field reads; a missing list of options is an empty one.
pub record Attribute : Type 0 where
  pub pk : ℕ
  pub api_name : String
  pub value_type : ValueType
  pub applies_to_account : Bool
  pub applies_to_customer : Bool
  pub picklist_options : List String

unfoldable pub attribute_type : ValueType → FieldType
attribute_type ValueType.number = FieldType.number
attribute_type ValueType.boolean = FieldType.boolean
attribute_type picklist = FieldType.choice
attribute_type ValueType.text = FieldType.text

-- The key is the one that was asked for, `attr:` and the attribute's name.
unfoldable pub attribute_field : String → Attribute → Field
unfolding attribute_type
attribute_field key a = record {
  key = key;
  type = attribute_type a.value_type;
  column = "";
  choices = a.picklist_options;
  record_type = none;
  optional = true;
}

unfoldable pub applies : Attribute → Kind → Bool
applies a account = a.applies_to_account
applies a _ = a.applies_to_customer

-- `attribute_name`
unfoldable pub attribute_name : String → Option String
unfolding starts_with remove_prefix
attribute_name key =
    let own = remove_prefix "parent." key in
    if starts_with "attr:" own then some (remove_prefix "attr:" own) else none

unfoldable pub attribute_names : List String → List String
unfolding attribute_name
attribute_names [] = []
attribute_names (key ∷ rest) =
    let names = attribute_names rest in
    elim (attribute_name key) [
      | none ↦ names
      | some name ↦ if str_eq name "" then names else name ∷ names
    ]

-- `attributes_for`: the workspace's attributes that the keys name.
unfoldable pub attributes_for : List Attribute → List String → List Attribute
unfolding attribute_names
attributes_for workspace keys = keep_if (λ a. member a.api_name (attribute_names keys)) workspace

unfoldable pub find_attribute : String → List Attribute → Option Attribute
find_attribute name [] = none
find_attribute name (a ∷ rest) = if str_eq a.api_name name then some a else find_attribute name rest

unfoldable pub applied : String → Kind → Option Attribute → Option Field
unfolding attribute_field applies
applied key kind none = none
applied key kind (some a) = if applies a kind then some (attribute_field key a) else none

-- By whether the key names an attribute.
unfoldable pub resolve_by : Bool → Kind → String → List Attribute → Option Field
unfolding remove_prefix find_field fields find_attribute applied
resolve_by true kind key attributes =
    applied key kind (find_attribute (remove_prefix "attr:" key) attributes)
resolve_by false kind key attributes = find_field key (fields kind)

-- `resolve`: the field that a key names for a kind.
unfoldable pub resolve : Kind → String → List Attribute → Option Field
unfolding starts_with resolve_by
resolve kind key attributes = resolve_by (starts_with "attr:" key) kind key attributes

unfoldable pub or_else : Option Field → Option Field → Option Field
or_else none other = other
or_else (some f) other = some f

-- `key in PARENT_EXCLUDED`
unfoldable pub is_excluded : String → Bool
is_excluded key = str_eq key "organisation"

-- `resolve_parent`: the field as an organisation reads it, else as an account does.
unfoldable pub resolve_parent : String → List Attribute → Option Field
unfolding is_excluded or_else resolve
resolve_parent key attributes =
    if is_excluded key
    then none
    else or_else (resolve customer key attributes) (resolve account key attributes)

unfoldable pub is_contact : Kind → Bool
is_contact contact = true
is_contact _ = false

-- Whether a rule on a kind asks about the record's parent.
unfoldable pub is_parent : Kind → String → Bool
unfolding is_contact starts_with
is_parent kind key = is_contact kind && starts_with "parent." key

-- `resolve_any`
unfoldable pub resolve_any : Kind → String → List Attribute → Option Field
unfolding is_parent resolve_parent remove_prefix resolve
resolve_any kind key attributes =
    if is_parent kind key
    then resolve_parent (remove_prefix "parent." key) attributes
    else resolve kind key attributes

-- `static_field`
unfoldable pub static_field : Kind → String → Option Field
unfolding resolve_any
static_field kind key = resolve_any kind key []
