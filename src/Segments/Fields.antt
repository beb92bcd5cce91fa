-- ===== src/Segments/Fields.antt =====
-- The fields that name records: the registry has four, and a parent's field is one for both parents.
use revenact_backend.Prelude.{
  ◌≡◌, refl, inl, inr, Bool, true, false, Option, none, some, List, [], ◌∷◌, ◌++◌, All, Bool-cases,
  String, str_eq,
}
use revenact_backend.Segments.Registry.{
  Kind, customer, account, contact, Field, RecordType, Attribute, owner_field, product_field,
  organisation_field, account_field, shared, contact_fields, customer_only, account_only,
  resolve_by, fields, find_field, starts_with, remove_prefix, find_attribute, attribute_field,
  applied, applies, resolve, or_else, is_excluded,
}
use revenact_backend.Segments.Presenting.{named_type}

-- A field of the registry, or an attribute's.
pub data Refers : Field → Type 0 where
  no_records : (f : Field) → f.record_type ≡ none → Refers f
  owners : Refers owner_field
  products : Refers product_field
  organisations : Refers organisation_field
  accounts : Refers account_field

shared-Refers : All Refers shared
unfolding shared
shared-Refers = (
  no_records _ refl,
  (
    no_records _ refl,
    (
      no_records _ refl,
      (
        no_records _ refl,
        (
          no_records _ refl,
          (
            no_records _ refl,
            (
              no_records _ refl,
              (
                no_records _ refl,
                (
                  owners,
                  (
                    no_records _ refl,
                    (
                      no_records _ refl,
                      (no_records _ refl, (no_records _ refl, (no_records _ refl, tt))),
                    ),
                  ),
                ),
              ),
            ),
          ),
        ),
      ),
    ),
  ),
)

fields_append : (fs gs : List Field) → All Refers fs → All Refers gs → All Refers (fs ++ gs)
fields_append [] gs h k = k
fields_append (f ∷ fs) gs h k = (h.0, fields_append fs gs h.1 k)

fields-Refers : (kind : Kind) → All Refers (fields kind)
unfolding fields contact_fields customer_only account_only
fields-Refers customer = fields_append shared customer_only shared-Refers (
  no_records _ refl,
  (products, (no_records _ refl, (no_records _ refl, (no_records _ refl, tt)))),
)
fields-Refers account = fields_append shared account_only shared-Refers (organisations, tt)
fields-Refers contact = (
  no_records _ refl,
  (
    no_records _ refl,
    (no_records _ refl, (no_records _ refl, (no_records _ refl, (organisations, (accounts, tt))))),
  ),
)

-- A resolved field whose ids name the records of a type, if any.
abbrev pub Fits : Option RecordType → Option Field → Type 0
Fits of none = Unit
Fits of (some f) = Refers f × (f.record_type ≡ of)

find_field-Fits :
    (key : String) (fs : List Field)
    → All Refers fs
    → Fits (named_type (find_field key fs)) (find_field key fs)
unfolding find_field named_type
find_field-Fits key [] h = tt
find_field-Fits key (f ∷ fs) h = elim (Bool-cases (str_eq key f.key)) [
  | inl p ↦ rw p (h.0, refl)
  | inr p ↦ rw p (find_field-Fits key fs h.1)
]

applied-Fits : (key : String) (kind : Kind) (a : Option Attribute) → Fits none (applied key kind a)
unfolding applied attribute_field
applied-Fits key kind none = tt
applied-Fits key kind (some a) = elim (Bool-cases (applies a kind)) [
  | inl p ↦ rw p (no_records _ refl, refl)
  | inr p ↦ rw p tt
]

resolve_by-Fits :
    (is_attribute : Bool) (kind : Kind) (key : String) (attributes : List Attribute)
    → Fits
        (named_type (resolve_by is_attribute kind key []))
        (resolve_by is_attribute kind key attributes)
unfolding resolve_by
resolve_by-Fits false kind key attributes = find_field-Fits key (fields kind) (fields-Refers kind)
resolve_by-Fits true kind key attributes =
    unfold find_attribute applied named_type in
    applied-Fits key kind (find_attribute (remove_prefix "attr:" key) attributes)

-- A field of the record's own is one of the registry, or an attribute, which names no records.
pub resolve-Fits :
    (kind : Kind) (key : String) (attributes : List Attribute)
    → Fits (named_type (resolve kind key [])) (resolve kind key attributes)
unfolding resolve
resolve-Fits kind key attributes = resolve_by-Fits (starts_with "attr:" key) kind key attributes

pub find_field-append :
    (key : String) (fs gs : List Field)
    → find_field key (fs ++ gs) ≡ or_else (find_field key fs) (find_field key gs)
unfolding find_field or_else
find_field-append key [] gs = refl
find_field-append key (f ∷ fs) gs = elim (Bool-cases (str_eq key f.key)) [
  | inl p ↦ rw p refl
  | inr p ↦ rw p (find_field-append key fs gs)
]

-- A field of both parents is one field.
or_else-Fits :
    (of : Option Field) (mine : Option Field)
    → Fits (named_type mine) mine
    → Fits (named_type (or_else mine of)) mine
unfolding or_else named_type
or_else-Fits of none h = tt
or_else-Fits of (some f) h = h

pub account_only-none :
    (key : String) → is_excluded key ≡ false → find_field key account_only ≡ none
unfolding is_excluded find_field account_only
account_only-none key h = rw h refl

both-Fits :
    (shared_one customers : Option Field)
    → Fits (named_type shared_one) shared_one
    → Fits
        (named_type (or_else (or_else shared_one customers) (or_else shared_one none)))
        (or_else shared_one none)
unfolding or_else named_type
both-Fits none none h = tt
both-Fits none (some f) h = tt
both-Fits (some f) c h = h

account_by-Fits :
    (is_attribute : Bool) (key : String) (attributes : List Attribute)
    → is_excluded key ≡ false
    → Fits
        (named_type (
          or_else
            (resolve_by is_attribute customer key [])
            (resolve_by is_attribute account key [])))
        (resolve_by is_attribute account key attributes)
unfolding resolve_by
account_by-Fits true key attributes h =
    unfold find_attribute applied named_type or_else in
    applied-Fits key account (find_attribute (remove_prefix "attr:" key) attributes)
account_by-Fits false key attributes h =
    unfold fields in
    rw
      (
        find_field-append key shared customer_only,
        find_field-append key shared account_only,
        account_only-none key h,
      )
      (both-Fits (find_field key shared) (find_field key customer_only)
        (find_field-Fits key shared shared-Refers))

customer_by-Fits :
    (is_attribute : Bool) (key : String) (attributes : List Attribute)
    → Fits
        (named_type (
          or_else
            (resolve_by is_attribute customer key [])
            (resolve_by is_attribute account key [])))
        (resolve_by is_attribute customer key attributes)
unfolding resolve_by
customer_by-Fits true key attributes =
    unfold find_attribute applied named_type or_else in
    applied-Fits key customer (find_attribute (remove_prefix "attr:" key) attributes)
customer_by-Fits false key attributes =
    or_else-Fits (find_field key (fields account)) (find_field key (fields customer))
      (find_field-Fits key (fields customer) (fields-Refers customer))

-- A parent's field, as an organisation and as an account reads it.
pub customer_side-Fits :
    (key : String) (attributes : List Attribute)
    → Fits
        (named_type (or_else (resolve customer key []) (resolve account key [])))
        (resolve customer key attributes)
unfolding resolve
customer_side-Fits key attributes = customer_by-Fits (starts_with "attr:" key) key attributes

pub account_side-Fits :
    (key : String) (attributes : List Attribute)
    → is_excluded key ≡ false
    → Fits
        (named_type (or_else (resolve customer key []) (resolve account key [])))
        (resolve account key attributes)
unfolding resolve
account_side-Fits key attributes h = account_by-Fits (starts_with "attr:" key) key attributes h
