-- ===== src/Segments/Tests.antt =====
-- A segment of two organisations, whose rules name a person that the viewer may not see named.
use revenact_backend.Prelude.{
  ◌≡◌, refl, ℕ, zero, suc, Bool, true, false, Option, none, some, String, [], ◌∷◌, prefix, suffix,
  size, member,
}
use revenact_backend.Prelude.Int.{ℤ, pos, ltb_ℤ}
use revenact_backend.Portfolio.Cursors.{
  Json, integer, text, array, object, no_items, item, Members, no_members,
}
use revenact_backend.Segments.Registry.{customer, RecordType, a_user, op_of}
use revenact_backend.Segments.Blocks.{World, all, any_of, Condition, leaf, group, Rules}
use revenact_backend.Segments.Queries.{Database, Test, compares}
use revenact_backend.Segments.Redaction.{is_home}
use revenact_backend.Segments.Parents.{IsAtHome}
use revenact_backend.Segments.{Segment, Viewer, members_queryset, member_ids}
use revenact_backend.Prelude.{All, is_some, arith}
use revenact_backend.Segments.Validation.{validate_rules}
use revenact_backend.Segments.Blocks.{leaves, ok}
use revenact_backend.Segments.Succeeds.{IsShort}
use revenact_backend.Segments.Registry.{
  is_parent, contact, is_excluded, remove_prefix, resolve, takes, resolve_any, attributes_for,
}
use revenact_backend.Segments.Shows.{ShowsAs, Shows, present_rules-ShowsAs}
use revenact_backend.Segments.Validated.{named_attributes, compile_rules-validate_rules}
use revenact_backend.Segments.Compiler.{compile_rules, is_prepared}
use revenact_backend.Segments.Compiles.{IsPrepared}
use revenact_backend.Segments.Presenting.{present_rules, record_of}
use revenact_backend.Segments.Members.{presented, members_queryset-present_rules}

abbrev exceeds_example : Json ℕ → Json ℕ → Bool
exceeds_example (integer a) (integer b) = ltb_ℤ b a
exceeds_example _ _ = false

abbrev is_zero_example : ℕ → Bool
is_zero_example zero = true
is_zero_example (suc n) = false

abbrev world : World
world = record {
  Number = ℕ;
  exceeds = exceeds_example;
  is_zero = is_zero_example;
  whole_days = λ n. some (pos n);
  is_dashed = λ t. true;
  from_iso = λ t. some 738000;
  prepares = λ kind field op j. exceeds_example (integer (pos 1000)) j;
}

abbrev row_owner : ℕ → Option ℤ
row_owner zero = some (pos 5)
row_owner (suc n) = none

abbrev says_example : Test ℕ → ℕ → Bool
says_example (compares _ _ _) row = true
says_example _ row = false

abbrev db : Database ℕ
db = record {
  Row = ℕ;
  pk = λ row. pos row;
  owner = row_owner;
  product = λ row. none;
  customers = λ row. [];
  own_customer_of = λ row. none;
  account_of = λ row. none;
  account_customers = λ row. [];
  parents = λ kind row. [];
  says = says_example;
}

abbrev name_example : RecordType → ℤ → Option String
name_example a_user (pos (suc (suc (suc (suc (suc zero)))))) = some "Ada"
name_example _ _ = none

abbrev viewer : Viewer db
viewer = record {
  pk = pos 5;
  reader = record { name_of = name_example };
  visible_records = λ kind. 0 ∷ 1 ∷ [];
}

-- `{"field": field, "op": op, "value": value}`
abbrev condition_json : String → String → Json ℕ → Json ℕ
condition_json field op value = object (
    Members.member "field" (text field)
      (Members.member "op" (text op) (Members.member "value" value no_members)))

abbrev condition : String → String → Json ℕ → Condition ℕ
condition field op value = record { field = field; op = op; value = value }

abbrev two_owners : Json ℕ
two_owners = array (item (integer (pos 5)) (item (integer (pos 9)) no_items))

abbrev rules : Rules ℕ
rules = record {
  match = any_of;
  conditions =
      leaf (condition "owner" "in" two_owners)
      ∷ group all (
          condition "health_score" "gt" (integer (pos 7))
          ∷ condition "owner" "is" (text "unassigned")
          ∷ [])
      ∷ [];
}

abbrev segment : Segment ℕ
segment = record {
  owner_id = some (pos 5);
  kind = customer;
  rules = rules;
  pinned_ids = [];
  excluded_ids = [];
}

-- Both organisations are in it: the owner of one is named, and the other is unassigned and scores more.
members_test : member_ids world db [] 739000 segment viewer ≡ some (pos 0 ∷ pos 1 ∷ [])
unfolding member_ids prefix size member op_of
members_test = refl

at_home : (row : ℕ) → IsAtHome viewer.reader db row
unfolding is_home
at_home zero = ((refl, refl), λ kind. tt)
at_home (suc n) = ((refl, refl), λ kind. tt)

members_queryset-present_rules_example :
    members_queryset world db [] 739000 (presented segment viewer) viewer
    ≡ members_queryset world db [] 739000 segment viewer
members_queryset-present_rules_example =
    members_queryset-present_rules world db [] 739000 segment viewer (at_home 0, (at_home 1, tt))

present_rules-ShowsAs_example :
    All
      (λ c. ShowsAs viewer.reader (record_of customer c.field) c.value)
      (leaves (present_rules rules customer viewer.reader).0.conditions)
present_rules-ShowsAs_example = present_rules-ShowsAs rules customer viewer.reader

-- What a person saves: the contacts of an organisation or account that has a pulse above 7, or that
-- nobody touched for thirty days.
abbrev saved_json : Json ℕ
saved_json = object (
    Members.member "match" (text "any") (
      Members.member "conditions"
        (array (
          item (condition_json "parent.ai_pulse" "gt" (integer (pos 7)))
            (item (condition_json "parent.last_touch" "gt" (integer (pos 30))) no_items)))
        no_members))

abbrev saved : Rules ℕ
saved = record {
  match = any_of;
  conditions =
      leaf (condition "parent.ai_pulse" "gt" (integer (pos 7)))
      ∷ leaf (condition "parent.last_touch" "gt" (integer (pos 30)))
      ∷ [];
}

saved_test : validate_rules world saved_json contact [] viewer.reader ≡ ok saved
unfolding validate_rules op_of member prefix suffix size
saved_test = refl

saved-IsShort :
    All
      (λ c. IsShort 739000 (resolve_any contact c.field (named_attributes [] saved)) c.value)
      (leaves saved.conditions)
unfolding leaves resolve_any attributes_for prefix suffix size Shows
saved-IsShort = (tt, (refl, tt))

saved-IsPrepared :
    All (IsPrepared world (named_attributes [] saved) contact) (leaves saved.conditions)
unfolding leaves is_parent is_excluded remove_prefix is_prepared resolve attributes_for prefix
    suffix size takes op_of member
saved-IsPrepared = ((refl, refl), ((refl, refl), tt))

compile_rules-validate_rules_example :
    is_some (compile_rules world saved contact [] viewer.reader 739000) ≡ true
compile_rules-validate_rules_example =
    compile_rules-validate_rules world [] contact viewer.reader viewer.reader 739000
      (record { early = omega arith; late = omega arith }) saved_json saved saved_test saved-IsShort
      saved-IsPrepared
