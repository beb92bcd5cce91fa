-- ===== src/Segments/Leaves.antt =====
-- A condition that a reader reads holds of the records of their book as the stored one does.
use revenact_backend.Prelude.{
  ◌≡◌, refl, subst, inl, inr, Bool, true, Option, none, some, List, ℕ, Bool-cases, String,
}
use revenact_backend.Prelude.Int.{ℤ}
use revenact_backend.Portfolio.Cursors.{Json}
use revenact_backend.Segments.Registry.{
  Kind, Op, takes, Field, RecordType, a_user, a_customer, an_account, a_product, Attribute, resolve,
}
use revenact_backend.Segments.Blocks.{World, ids_in}
use revenact_backend.Segments.Validation.{Reader}
use revenact_backend.Segments.Presenting.{redact}
use revenact_backend.Segments.Queries.{Database}
use revenact_backend.Segments.Parts.{organisation_q, account_q}
use revenact_backend.Segments.Compiler.{field_q, type_q, op_q, found_q, own_q, is_owner_type}
use revenact_backend.Segments.Redaction.{is_home, Agrees}
use revenact_backend.Segments.Truths.{truth}
use revenact_backend.Segments.References.{openable_ids-redact, column_ids-redact, choice-redact}
use revenact_backend.Segments.Fields.{
  Refers, no_records, owners, products, organisations, accounts, Fits,
}

module _ {Number : Type 0} (user : Reader) (opens : RecordType → ℤ → Bool) where
  -- A value as it is read, where its ids name the records of a type.
  abbrev pub read_as : Option RecordType → Json Number → Json Number
  read_as none j = j
  read_as (some type) j = redact (opens type) j

  -- What is kept of the ids of a value are those that the reader may see named.
  abbrev pub AgreesAs : Option RecordType → Json Number → Type 0
  AgreesAs none j = Unit
  AgreesAs (some type) j = Agrees user type (opens type) (ids_in j)

-- A row whose owner and product the reader may see named.
abbrev pub IsHome : {Number : Type 0} → Reader → (db : Database Number) → db.Row → Type 0
IsHome user db row =
    (is_home user a_user (db.owner row) ≡ true) × (is_home user a_product (db.product row) ≡ true)

module _ (world : World) (kind : Kind) (attributes : List Attribute) (user : Reader) (today : ℕ)
    (opens : RecordType → ℤ → Bool) (db : Database world.Number) (row : db.Row) where
  open world use {Number}

  field_q-read :
      (f : Field)
      → Refers f
      → (op : Op) (j : Json Number) → IsHome user db row
      → AgreesAs user opens f.record_type j
      → truth db row
          (field_q world kind attributes user today f op (read_as user opens f.record_type j))
        ≡ truth db row (field_q world kind attributes user today f op j)
  field_q-read _ (no_records f e) op j home h = rw e refl
  field_q-read _ owners op j home h =
      unfold field_q is_owner_type in choice-redact user a_user (opens a_user) db row op j home.0 h
  field_q-read _ products op j home h =
      unfold field_q is_owner_type type_q in
      column_ids-redact user a_product (opens a_product) db row "primary_product_id" op j home.1 h
  field_q-read _ organisations op j home h =
      unfold field_q is_owner_type organisation_q in
      rw (openable_ids-redact user a_customer (opens a_customer) op j h)
  field_q-read _ accounts op j home h =
      unfold field_q is_owner_type account_q in
      rw (openable_ids-redact user an_account (opens an_account) op j h)

  op_q-read :
      (f : Field)
      → Refers f
      → (op : Option Op) (j : Json Number) → IsHome user db row
      → AgreesAs user opens f.record_type j
      → truth db row
          (op_q world kind attributes user today f op (read_as user opens f.record_type j))
        ≡ truth db row (op_q world kind attributes user today f op j)
  unfolding op_q
  op_q-read f r none j home h = refl
  op_q-read f r (some op) j home h = elim (Bool-cases (takes f op)) [
    | inl p ↦ rw p (field_q-read f r op j home h)
    | inr p ↦ rw p refl
  ]

  found_q-read :
      (of : Option RecordType) (f : Option Field)
      → Fits of f
      → (op : Option Op) (j : Json Number) → IsHome user db row
      → AgreesAs user opens of j
      → truth db row (found_q world kind attributes user today f op (read_as user opens of j))
        ≡ truth db row (found_q world kind attributes user today f op j)
  unfolding found_q
  found_q-read of none fits op j home h = refl
  found_q-read of (some f) (r, e) op j home h =
      subst
        (λ t.
          AgreesAs user opens t j
          → truth db row (op_q world kind attributes user today f op (read_as user opens t j))
            ≡ truth db row (op_q world kind attributes user today f op j))
        e (op_q-read f r op j home) h

  pub own_q-read :
      (of : Option RecordType) (key : String)
      → Fits of (resolve kind key attributes)
      → (op : Option Op) (j : Json Number) → IsHome user db row
      → AgreesAs user opens of j
      → truth db row (own_q world kind attributes user today key op (read_as user opens of j))
        ≡ truth db row (own_q world kind attributes user today key op j)
  unfolding own_q
  own_q-read of key = found_q-read of (resolve kind key attributes)
