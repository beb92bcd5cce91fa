-- ===== src/Segments/Soundness.antt =====
-- The fields that the registry and the attributes resolve to are those that the compiler expects.
use revenact_backend.Prelude.{
  ◌≡◌, refl, sym, ◌∙◌, subst, inl, inr, Bool, true, false, Option, none, some, is_some, List, [],
  ◌∷◌, ◌++◌, All, String, str_eq, str_eq_iff, Bool-cases, prefix, size,
}
use revenact_backend.Segments.Registry.{
  Kind, customer, account, contact, Field, Attribute, nps_field, shared, customer_only,
  account_only, contact_fields, fields, find_field, starts_with, remove_prefix, find_attribute,
  attribute_field, applied, applies, resolve, resolve_by, or_else, is_excluded,
}
use revenact_backend.Segments.Parts.{column_of, keyed_column, attribute_column}
use revenact_backend.Segments.Fields.{find_field-append, account_only-none}
use revenact_backend.Segments.Checking.{IsSound}

-- A field of the registry.
abbrev IsStatic : Field → Type 0
IsStatic f = (str_eq f.key "nps_band" ≡ true → f ≡ nps_field) × (starts_with "attr:" f.key ≡ false)

shared-IsStatic : All IsStatic shared
unfolding shared starts_with prefix size
shared-IsStatic = (
  (λ h. absurd (cc h), refl),
  (
    (λ h. absurd (cc h), refl),
    (
      (λ h. absurd (cc h), refl),
      (
        (λ h. absurd (cc h), refl),
        (
          (λ h. absurd (cc h), refl),
          (
            (λ h. refl, refl),
            (
              (λ h. absurd (cc h), refl),
              (
                (λ h. absurd (cc h), refl),
                (
                  (λ h. absurd (cc h), refl),
                  (
                    (λ h. absurd (cc h), refl),
                    (
                      (λ h. absurd (cc h), refl),
                      (
                        (λ h. absurd (cc h), refl),
                        ((λ h. absurd (cc h), refl), ((λ h. absurd (cc h), refl), tt)),
                      ),
                    ),
                  ),
                ),
              ),
            ),
          ),
        ),
      ),
    ),
  ),
)

column_of_keyed :
    (kind : Kind) (attributes : List Attribute) (f : Field)
    → is_some (keyed_column (starts_with "attr:" f.key) attributes f) ≡ true
    → is_some (column_of kind attributes f) ≡ true
unfolding column_of
column_of_keyed kind attributes f h = elim (Bool-cases (str_eq f.key "arr")) [
  | inl p ↦ rw p refl
  | inr p1 ↦ elim (Bool-cases (str_eq f.key "seat_use")) [
    | inl p ↦ rw (p1, p) refl
    | inr p2 ↦ elim (Bool-cases (str_eq f.key "open_tickets")) [
      | inl p ↦ rw (p1, p2, p) refl
      | inr p3 ↦ elim (Bool-cases (str_eq f.key "last_touch")) [
        | inl p ↦ rw (p1, p2, p3, p) refl
        | inr p4 ↦ rw (p1, p2, p3, p4) h
      ]
    ]
  ]
]

static-IsSound :
    (kind : Kind) (attributes : List Attribute) (f : Field) → IsStatic f → IsSound kind attributes f
static-IsSound kind attributes f h = record {
  nps = h.0;
  column = column_of_keyed kind attributes f (rw (h.1) (unfold keyed_column in refl));
}

found {ℓ} :
    (P : Field → Type ℓ) (key : String) (fs : List Field) (f : Field)
    → All P fs
    → find_field key fs ≡ some f
    → P f
unfolding find_field
found P key [] f h e = absurd (cc e)
found P key (g ∷ gs) f h e = elim (Bool-cases (str_eq key g.key)) [
  | inl p ↦ subst P (cc (rw p at e)) (h.0)
  | inr p ↦ found P key gs f h.1 (rw p at e)
]

IsStatic-append : (fs gs : List Field) → All IsStatic fs → All IsStatic gs → All IsStatic (fs ++ gs)
IsStatic-append [] gs h k = k
IsStatic-append (f ∷ fs) gs h k = (h.0, IsStatic-append fs gs h.1 k)

fields-IsStatic : (kind : Kind) → All IsStatic (fields kind)
unfolding fields contact_fields customer_only account_only starts_with prefix size
fields-IsStatic customer = IsStatic-append shared customer_only shared-IsStatic (
  (λ h. absurd (cc h), refl),
  (
    (λ h. absurd (cc h), refl),
    ((λ h. absurd (cc h), refl), ((λ h. absurd (cc h), refl), ((λ h. absurd (cc h), refl), tt))),
  ),
)
fields-IsStatic account =
    IsStatic-append shared account_only shared-IsStatic ((λ h. absurd (cc h), refl), tt)
fields-IsStatic contact = (
  (λ h. absurd (cc h), refl),
  (
    (λ h. absurd (cc h), refl),
    (
      (λ h. absurd (cc h), refl),
      (
        (λ h. absurd (cc h), refl),
        (
          (λ h. absurd (cc h), refl),
          ((λ h. absurd (cc h), refl), ((λ h. absurd (cc h), refl), tt)),
        ),
      ),
    ),
  ),
)

applied-IsSound :
    (kind : Kind) (key : String) (attributes : List Attribute) (a : Option Attribute) (f : Field)
    → starts_with "attr:" key ≡ true
    → find_attribute (remove_prefix "attr:" key) attributes ≡ a
    → applied key kind a ≡ some f
    → IsSound kind attributes f
unfolding applied
applied-IsSound kind key attributes none f p q e = absurd (cc e)
applied-IsSound kind key attributes (some a) f p q e = elim (Bool-cases (applies a kind)) [
  | inr r ↦ absurd (cc (rw r at e))
  | inl r ↦ subst (IsSound kind attributes) (cc (rw r at e)) (record {
    nps = λ h. absurd (
        cc (sym not_nps ∙ (rw ((str_eq_iff key "nps_band").0 (unfold attribute_field in h)) at p)));
    column =
        column_of_keyed kind attributes (attribute_field key a)
          (unfold attribute_field keyed_column attribute_column in rw (p, q) refl);
  })
]
  where
    not_nps : starts_with "attr:" "nps_band" ≡ false
    not_nps = unfold starts_with prefix size in refl

resolve_by-IsSound :
    (is_attribute : Bool) (kind : Kind) (key : String) (attributes : List Attribute) (f : Field)
    → starts_with "attr:" key ≡ is_attribute
    → resolve_by is_attribute kind key attributes ≡ some f
    → IsSound kind attributes f
unfolding resolve_by
resolve_by-IsSound true kind key attributes f p e =
    applied-IsSound kind key attributes (find_attribute (remove_prefix "attr:" key) attributes) f p
      refl e
resolve_by-IsSound false kind key attributes f p e =
    static-IsSound kind attributes f (found IsStatic key (fields kind) f (fields-IsStatic kind) e)

pub resolve-IsSound :
    (kind : Kind) (key : String) (attributes : List Attribute) (f : Field)
    → resolve kind key attributes ≡ some f
    → IsSound kind attributes f
unfolding resolve
resolve-IsSound kind key attributes f e =
    resolve_by-IsSound (starts_with "attr:" key) kind key attributes f refl e

same_or :
    (s c : Option Field) (f g : Field) → or_else s c ≡ some f → or_else s none ≡ some g → f ≡ g
unfolding or_else
same_or none c f g p q = absurd (cc q)
same_or (some h) c f g p q = cc (p, q)

same_applied :
    (key : String) (a : Option Attribute) (f g : Field)
    → applied key customer a ≡ some f
    → applied key account a ≡ some g
    → f ≡ g
unfolding applied
same_applied key none f g p q = absurd (cc p)
same_applied key (some a) f g p q = elim (Bool-cases (applies a customer)) [
  | inr r ↦ absurd (cc (rw r at p))
  | inl r ↦ elim (Bool-cases (applies a account)) [
    | inr s ↦ absurd (cc (rw s at q))
    | inl s ↦ cc ((rw r at p), (rw s at q))
  ]
]

same_by :
    (is_attribute : Bool) (key : String) (attributes : List Attribute) (f g : Field)
    → is_excluded key ≡ false
    → resolve_by is_attribute customer key attributes ≡ some f
    → resolve_by is_attribute account key attributes ≡ some g
    → f ≡ g
unfolding resolve_by fields
same_by true key attributes f g h p q =
    same_applied key (find_attribute (remove_prefix "attr:" key) attributes) f g p q
same_by false key attributes f g h p q =
    same_or (find_field key shared) (find_field key customer_only) f g
      (sym (find_field-append key shared customer_only) ∙ p)
      ((rw (find_field-append key shared account_only, account_only-none key h) at q))

-- A field that both parents have is one field.
pub same_field :
    (key : String) (attributes : List Attribute) (f g : Field)
    → is_excluded key ≡ false
    → resolve customer key attributes ≡ some f
    → resolve account key attributes ≡ some g
    → f ≡ g
unfolding resolve
same_field key attributes f g h p q = same_by (starts_with "attr:" key) key attributes f g h p q
