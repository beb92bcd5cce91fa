-- ===== src/Segments/Checking.antt =====
-- A field's condition that was checked compiles without an exception, by the cases of `_field_q`.
use revenact_backend.Prelude.{
  ◌≡◌, refl, inl, inr, Bool, true, false, ◌&&◌, some, is_some, List, [], ◌∷◌, ℕ, str_eq, Bool-cases,
  member, leb,
}
use revenact_backend.Portfolio.Cursors.{Json, text, array, Items, no_items, item}
use revenact_backend.Segments.Registry.{
  Kind, Op, within_next, is, is_not, in_list, FieldType, Field, nps_bands, nps_field, Attribute,
  starts_with,
}
use revenact_backend.Segments.Blocks.{
  World, ok, require, bad_value, not_a_window, max_values, not_a_list_of_values,
  not_one_of_its_values,
}
use revenact_backend.Segments.Validation.{
  Reader, check_value, check_list, check_member, check_each, member_as, is_window, is_choice, count,
}
use revenact_backend.Segments.Queries.{Q, test, in_band}
use revenact_backend.Segments.Parts.{
  iterate, list_of, map_each, choice, nps_q, ids_of, values, is_list, openable_ids, column_of,
  organisation_q, account_q, column_ids, owner_q,
}
use revenact_backend.Segments.Values.{ahead}
use revenact_backend.Segments.Compiler.{field_q, type_q, is_owner_type, is_within_next}
use revenact_backend.Segments.Succeeds.{
  IsInRange, its_value, held, then_first, then_second, window_ahead, ShortAs,
}
use revenact_backend.Segments.Typing.{list_iterates, typed_some}

-- What the compiler asks of a field that it looked up.
pub record IsSound (kind : Kind) (attributes : List Attribute) (f : Field) : Type 0 where
  pub nps : str_eq f.key "nps_band" ≡ true → f ≡ nps_field
  pub column : is_some (column_of kind attributes f) ≡ true

module _ (world : World) (today : ℕ) (in_range : IsInRange today) where
  open world use {Number}

  abbrev Short : FieldType → Json Number → Type 0
  Short = ShortAs today

  map_each-some :
      (q_for : Json Number → Q Number) (js : List (Json Number))
      → is_some (map_each (λ part. some (q_for part)) js) ≡ true
  unfolding map_each
  map_each-some q_for [] = refl
  map_each-some q_for (j ∷ js) =
      rw (its_value (map_each (λ part. some (q_for part)) js) (map_each-some q_for js)).1 refl

  -- A choice of which every value has a query.
  choice-some :
      (f : Field) (op : Op) (j : Json Number) (q_for : Json Number → Q Number)
      → check_value world f op j ≡ ok tt
      → is_some (choice op j (λ part. some (q_for part))) ≡ true
  unfolding choice check_value
  choice-some f in_list j q_for h =
      let (js, p) = its_value (iterate j) (list_iterates world today in_range f j h) in
      rw (p, (its_value (map_each (λ part. some (q_for part)) js) (map_each-some q_for js)).1) refl
  choice-some f op j q_for h = refl

  -- A band that is checked has a query.
  nps_some :
      (j : Json Number) → member_as FieldType.choice nps_bands j ≡ ok tt → is_some (nps_q j) ≡ true
  unfolding member_as is_choice nps_q
  nps_some (text t) h = rw (held (member t nps_bands) (bad_value not_one_of_its_values) h) refl
  nps_some j h = absurd (cc h)

  nps_each :
      (f : Field) (items : Items Number)
      → f ≡ nps_field
      → check_each f items ≡ ok tt
      → is_some (map_each nps_q (list_of items)) ≡ true
  unfolding check_each map_each list_of check_member
  nps_each f no_items e h = refl
  nps_each f (item j rest) e h =
      rw
        (
          (its_value (nps_q j) (
              nps_some j (
                (then_first (member_as FieldType.choice nps_bands j) (check_each f rest) tt
                  (rw e at h)).1))).1,
          (its_value (map_each nps_q (list_of rest))
              (nps_each f rest e (then_second (check_member f j) (check_each f rest) tt h))).1,
        )
        refl

  each_of :
      (f : Field) (items : Items Number)
      → check_list f (array items) ≡ ok tt
      → check_each f items ≡ ok tt
  unfolding check_list
  each_of f items h =
      then_second
        (require (leb 1 (count items) && leb (count items) max_values)
          (bad_value not_a_list_of_values))
        (check_each f items) tt h

  nps_choice :
      (f : Field) (op : Op) (j : Json Number)
      → f ≡ nps_field
      → check_value world f op j ≡ ok tt
      → is_some (choice op j nps_q) ≡ true
  unfolding choice check_value check_member
  nps_choice f is j e h = nps_some j (rw e at h)
  nps_choice f is_not j e h = rw (its_value (nps_q j) (nps_some j (rw e at h))).1 refl
  nps_choice f in_list (array items) e h =
      unfold iterate in
      rw (its_value (map_each nps_q (list_of items)) (nps_each f items e (each_of f items h))).1
        refl
  nps_choice f in_list j e h = absurd (unfold check_list in cc h)
  nps_choice f op j e h = refl

  ids_some :
      (f : Field) (op : Op) (j : Json Number)
      → check_value world f op j ≡ ok tt
      → is_some (ids_of op j) ≡ true
  unfolding ids_of values is_list check_value
  ids_some f in_list j h =
      rw (its_value (iterate j) (list_iterates world today in_range f j h)).1 refl
  ids_some f op j h = refl

  window_of :
      (f : Field) (op : Op) (j : Json Number) (b : Bool)
      → (b && is_within_next world op) ≡ true
      → check_value world f op j ≡ ok tt
      → is_window j ≡ true
  unfolding check_value
  window_of f within_next j b g h = held (is_window j) (bad_value not_a_window) h
  window_of f op j true g h = absurd (cc g)
  window_of f op j false g h = absurd (cc g)

  organisation_some :
      (kind : Kind) (user : Reader) (f : Field) (op : Op) (j : Json Number)
      → check_value world f op j ≡ ok tt
      → is_some (organisation_q kind user op j) ≡ true
  unfolding organisation_q openable_ids
  organisation_some kind user f op j h = rw (its_value (ids_of op j) (ids_some f op j h)).1 refl

  account_some :
      (user : Reader) (f : Field) (op : Op) (j : Json Number)
      → check_value world f op j ≡ ok tt
      → is_some (account_q user op j) ≡ true
  unfolding account_q openable_ids
  account_some user f op j h = rw (its_value (ids_of op j) (ids_some f op j h)).1 refl

  type_some :
      (kind : Kind) (attributes : List Attribute) (f : Field) (type : FieldType) (op : Op)
      (j : Json Number)
      → f.type ≡ type
      → is_some (column_of kind attributes f) ≡ true
      → check_value world f op j ≡ ok tt
      → Short f.type j
      → is_some (type_q world kind attributes today f type op j) ≡ true
  unfolding type_q
  type_some kind attributes f FieldType.record_id op j e c h k =
      unfold column_ids in rw (its_value (ids_of op j) (ids_some f op j h)).1 refl
  type_some kind attributes f type op j e c h k =
      let (column, p) = its_value (column_of kind attributes f) c in
      rw p (rw e at (typed_some world today in_range f column (starts_with "attr:" f.key) op j h k))

  pub field_q_some :
      (kind : Kind) (attributes : List Attribute) (user : Reader) (f : Field) (op : Op)
      (j : Json Number)
      → IsSound kind attributes f
      → check_value world f op j ≡ ok tt
      → Short f.type j
      → is_some (field_q world kind attributes user today f op j) ≡ true
  unfolding field_q
  field_q_some kind attributes user f op j sound h k =
      elim (Bool-cases (str_eq f.key "health_category")) [
        | inl p ↦ rw p (choice-some f op j (λ part. test (in_band part)) h)
        | inr p1 ↦ elim (Bool-cases (str_eq f.key "nps_band")) [
          | inl p ↦ rw (p1, p) (nps_choice f op j (sound.nps p) h)
          | inr p2 ↦ elim (Bool-cases (str_eq f.key "churned")) [
            | inl p ↦ rw (p1, p2, p) refl
            | inr p3 ↦ elim (Bool-cases (str_eq f.key "renewal_date" && is_within_next world op)) [
              | inl p ↦
                  rw
                    (
                      p1,
                      p2,
                      p3,
                      p,
                      (its_value (ahead world today j) (
                          window_ahead world today in_range j
                            (window_of f op j (str_eq f.key "renewal_date") p h))).1,
                    )
                    refl
              | inr p4 ↦ elim (Bool-cases (is_owner_type world f.type)) [
                | inl p ↦ rw (p1, p2, p3, p4, p) (choice-some f op j owner_q h)
                | inr p5 ↦ elim (Bool-cases (str_eq f.key "organisation")) [
                  | inl p ↦ rw (p1, p2, p3, p4, p5, p) (organisation_some kind user f op j h)
                  | inr p6 ↦ elim (Bool-cases (str_eq f.key "account")) [
                    | inl p ↦ rw (p1, p2, p3, p4, p5, p6, p) (account_some user f op j h)
                    | inr p7 ↦
                        rw (p1, p2, p3, p4, p5, p6, p7)
                          (type_some kind attributes f f.type op j refl sound.column h k)
                  ]
                ]
              ]
            ]
          ]
        ]
      ]
