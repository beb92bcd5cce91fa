-- ===== src/Segments/References.antt =====
-- A condition on an owner, a product, an organisation or an account, as it is read and as it is stored.
use revenact_backend.Prelude.{
  ◌≡◌, refl, sym, ◌∙◌, ap, inl, inr, Bool, true, false, not, Option, none, some, List, [], ◌∷◌,
  Bool-cases, String, if◌then◌else◌,
}
use revenact_backend.Prelude.Int.{ℤ}
use revenact_backend.Portfolio.Cursors.{
  Json, null, boolean, integer, real, text, array, object, Items, no_items, item,
}
use revenact_backend.Segments.Registry.{
  Op, gt, lt, between, is_empty, is_not_empty, within_next, within_last, is, is_not, in_list,
  RecordType,
}
use revenact_backend.Segments.Blocks.{ids_in, ids_in_items, any_of, insert_id, has_id}
use revenact_backend.Segments.Validation.{Reader}
use revenact_backend.Segments.Presenting.{redact, redact_items}
use revenact_backend.Segments.Queries.{Database, test, column_in, meets, matches, is_id, is_id_in}
use revenact_backend.Segments.Parts.{
  values, iterate, list_of, present, opened, ids_of, is_list, is_negative, openable_ids, negate_if,
  choice, owner_q, column_ids, map_each, ◌>>=◌,
}
use revenact_backend.Segments.Redaction.{
  is_home, Agrees, opened-present, opened-redact_items, is_id_in-present, is_id-redact,
  is_id_in-redact_items, is_id-null, is_id-array, Agrees-first, Agrees-rest,
}
use revenact_backend.Segments.Truths.{truth, truths, truth_of_parts, truths_cons}

Agrees-none : (user : Reader) (type : RecordType) (opens : ℤ → Bool) → Agrees user type opens []
unfolding has_id
Agrees-none user type opens n p = absurd (cc p)

map_present :
    {Number B : Type 0} (P : List (Json Number) → B) (o : Option (List (Json Number)))
    → ((o >>= λ js. some (present js)) >>= λ js. some (P js)) ≡ (o >>= λ js. some (P (present js)))
map_present P none = refl
map_present P (some js) = refl

module _ {Number : Type 0} (user : Reader) (type : RecordType) (opens : ℤ → Bool) where
  iterate_read : (n : ℤ) → iterate {Number = Number} (redact opens (integer n)) ≡ none
  unfolding iterate redact
  iterate_read n = elim (Bool-cases (opens n)) [ inl p ↦ rw p refl | inr p ↦ rw p refl ]

  -- The ids of a value on its own.
  Agrees-single :
      (j : Json Number)
      → Agrees user type opens (ids_in j)
      → Agrees user type opens (ids_in_items (item j no_items))
  unfolding ids_in ids_in_items insert_id has_id
  Agrees-single (integer n) h = h
  Agrees-single null h = Agrees-none user type opens
  Agrees-single (boolean b) h = Agrees-none user type opens
  Agrees-single (real x) h = Agrees-none user type opens
  Agrees-single (text t) h = Agrees-none user type opens
  Agrees-single (array a) h = Agrees-none user type opens
  Agrees-single (object o) h = Agrees-none user type opens

  -- What is kept of two lists of values that `P` does not tell apart, nulls or not.
  same_present :
      {B : Type 0} (P : List (Json Number) → B)
      → ((js : List (Json Number)) → P (present js) ≡ P js)
      → ((items : Items Number)
          → Agrees user type opens (ids_in_items items)
          → P (list_of (redact_items opens items)) ≡ P (list_of items))
      → (many : Bool) (j : Json Number) → Agrees user type opens (ids_in j)
      → (values many (redact opens j) >>= λ js. some (P (present js)))
        ≡ (values many j >>= λ js. some (P (present js)))
  unfolding values list_of
  same_present P drops same false j h = ap some (
      drops (redact opens j ∷ [])
      ∙ unfold redact in same (item j no_items) (Agrees-single j h) ∙ sym (drops (j ∷ [])))
  same_present P drops same true (array items) h =
      unfold redact iterate in
      ap some (
        drops (list_of (redact_items opens items))
        ∙ same items (unfold ids_in in h)
        ∙ sym (drops (list_of items)))
  same_present P drops same true (integer n) h = rw (iterate_read n) (unfold iterate in refl)
  same_present P drops same true null h = unfold redact in refl
  same_present P drops same true (boolean b) h = unfold redact in refl
  same_present P drops same true (real x) h = unfold redact in refl
  same_present P drops same true (text t) h = unfold redact in refl
  same_present P drops same true (object o) h = unfold redact in refl

  same_ids :
      {B : Type 0} (P : List (Json Number) → B)
      → ((js : List (Json Number)) → P (present js) ≡ P js)
      → ((items : Items Number)
          → Agrees user type opens (ids_in_items items)
          → P (list_of (redact_items opens items)) ≡ P (list_of items))
      → (op : Op) (j : Json Number) → Agrees user type opens (ids_in j)
      → (ids_of op (redact opens j) >>= λ js. some (P js)) ≡ (ids_of op j >>= λ js. some (P js))
  unfolding ids_of
  same_ids P drops same op j h =
      map_present P (values (is_list op) (redact opens j))
      ∙ same_present P drops same (is_list op) j h
      ∙ sym (map_present P (values (is_list op) j))

  -- The compiler opens the same records for both.
  pub openable_ids-redact :
      (op : Op) (j : Json Number)
      → Agrees user type opens (ids_in j)
      → openable_ids type user op (redact opens j) ≡ openable_ids type user op j
  unfolding openable_ids
  openable_ids-redact op j h =
      same_ids (opened type user) (opened-present user type opens)
        (opened-redact_items user type opens) op j h

  -- A condition on a column of ids holds of a row at home for both.
  module _ (db : Database Number) (row : db.Row) where
    truth_ids :
        (column : String) (negative : Bool) (o : Option (List (Json Number)))
        → truth db row (o >>= λ js. some (negate_if negative (test (column_in column js)))) ≡ (
            (o >>= λ js. some (is_id_in (db.product row) js)) >>= λ b.
            some (if negative then not b else b))
    unfolding negate_if matches meets
    truth_ids column negative none = refl
    truth_ids column true (some js) = refl
    truth_ids column false (some js) = refl

    pub column_ids-redact :
        (column : String) (op : Op) (j : Json Number)
        → is_home user type (db.product row) ≡ true
        → Agrees user type opens (ids_in j)
        → truth db row (column_ids column op (redact opens j))
          ≡ truth db row (column_ids column op j)
    unfolding column_ids
    column_ids-redact column op j e h =
        truth_ids column (is_negative op) (ids_of op (redact opens j))
        ∙ ap (λ o. o >>= λ b. some (if is_negative op then not b else b))
            (same_ids (is_id_in (db.product row))
              (is_id_in-present user type opens (db.product row))
              (λ items. is_id_in-redact_items user type opens (db.product row) items e) op j h)
        ∙ sym (truth_ids column (is_negative op) (ids_of op j))

    owner_q-redact :
        (j : Json Number)
        → is_home user type (db.owner row) ≡ true
        → Agrees user type opens (ids_in_items (item j no_items))
        → matches db (owner_q (redact opens j)) row ≡ matches db (owner_q j) row
    unfolding owner_q matches meets redact
    owner_q-redact null e h = refl
    owner_q-redact (boolean b) e h = refl
    owner_q-redact (real x) e h = refl
    owner_q-redact (text t) e h = refl
    owner_q-redact (object o) e h = refl
    owner_q-redact (array a) e h =
        is_id-array (db.owner row) (redact_items opens a) ∙ sym (is_id-array (db.owner row) a)
    owner_q-redact (integer n) e h = elim (Bool-cases (opens n)) [
      | inl p ↦ rw (redact, p) refl
      | inr p ↦ rw (redact, p) (sym (is_id-null Number (db.owner row)) ∙ (rw (redact, p) at hit))
    ]
      where
        hit :
            is_id {Number = Number} (db.owner row) (redact opens (integer n))
            ≡ is_id {Number = Number} (db.owner row) (integer n)
        hit = is_id-redact user type opens (db.owner row) (integer n) e h

    owner_list :
        (items : Items Number)
        → is_home user type (db.owner row) ≡ true
        → Agrees user type opens (ids_in_items items)
        → truths db row
            (map_each (λ part. some (owner_q part)) (list_of (redact_items opens items)))
          ≡ truths db row (map_each (λ part. some (owner_q part)) (list_of items))
    unfolding map_each list_of redact
    owner_list no_items e h = refl
    owner_list (item j rest) e h =
        truths_cons db row (some (owner_q (redact opens j))) (some (owner_q j))
          (map_each (λ part. some (owner_q part)) (list_of (redact_items opens rest)))
          (map_each (λ part. some (owner_q part)) (list_of rest))
          (ap some (owner_q-redact j e (Agrees-first user type opens j rest h)))
          (owner_list rest e (Agrees-rest user type opens j rest h))

    pub choice-redact :
        (op : Op) (j : Json Number)
        → is_home user type (db.owner row) ≡ true
        → Agrees user type opens (ids_in j)
        → truth db row (choice op (redact opens j) (λ part. some (owner_q part)))
          ≡ truth db row (choice op j (λ part. some (owner_q part)))
    unfolding choice
    choice-redact is j e h = ap some (owner_q-redact j e (Agrees-single j h))
    choice-redact is_not j e h =
        unfold matches in ap (λ b. some (not b)) (owner_q-redact j e (Agrees-single j h))
    choice-redact in_list (array items) e h =
        unfold redact iterate in
        truth_of_parts db row any_of
          (map_each (λ part. some (owner_q part)) (list_of (redact_items opens items)))
          (map_each (λ part. some (owner_q part)) (list_of items))
          (owner_list items e (unfold ids_in in h))
    choice-redact in_list (integer n) e h = rw (iterate_read n) (unfold iterate in refl)
    choice-redact in_list null e h = unfold redact in refl
    choice-redact in_list (boolean b) e h = unfold redact in refl
    choice-redact in_list (real x) e h = unfold redact in refl
    choice-redact in_list (text t) e h = unfold redact in refl
    choice-redact in_list (object o) e h = unfold redact in refl
    choice-redact gt j e h = refl
    choice-redact lt j e h = refl
    choice-redact between j e h = refl
    choice-redact is_empty j e h = refl
    choice-redact is_not_empty j e h = refl
    choice-redact within_next j e h = refl
    choice-redact within_last j e h = refl
