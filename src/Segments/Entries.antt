-- ===== src/Segments/Entries.antt =====
-- The conditions that a reader reads, in their groups, as the stored ones.
use revenact_backend.Prelude.{
  ◌≡◌, refl, ap, inl, inr, Bool, Option, none, some, List, [], ◌∷◌, ◌++◌, map, Bool-cases,
}
use revenact_backend.Prelude.Int.{ℤ}
use revenact_backend.Portfolio.Cursors.{
  Json, null, boolean, integer, real, text, array, object, Items, no_items, item,
}
use revenact_backend.Segments.Registry.{Kind, Op, op_of, is, in_list, RecordType}
use revenact_backend.Segments.Blocks.{Condition, Entry, leaf, group, leaves, leaves_of}
use revenact_backend.Segments.Presenting.{
  redact, redact_items, redact_named, redact_condition, redact_entry, record_of,
}
use revenact_backend.Segments.Outputs.{names_churned, asks_churn, is_churn, has_churn}

module _ {Number : Type 0} (kind : Kind) (opens : RecordType → ℤ → Bool) where
  redact_named_field :
      (of : Option RecordType) (c : Condition Number) → (redact_named opens of c).field ≡ c.field
  unfolding redact_named
  redact_named_field none c = refl
  redact_named_field (some type) c = refl

  pub redact_condition_field :
      (c : Condition Number) → (redact_condition kind opens c).field ≡ c.field
  unfolding redact_condition
  redact_condition_field c = redact_named_field (record_of kind c.field) c

  pub redact_condition_fields :
      (cs : List (Condition Number))
      → map (λ c. c.field) (map (redact_condition kind opens) cs) ≡ map (λ c. c.field) cs
  redact_condition_fields [] = refl
  redact_condition_fields (c ∷ cs) = cc (redact_condition_field c, redact_condition_fields cs)

  map_append :
      (f : Condition Number → Condition Number) (cs ds : List (Condition Number))
      → map f (cs ++ ds) ≡ map f cs ++ map f ds
  map_append f [] ds = refl
  map_append f (c ∷ cs) ds = ap (λ l. f c ∷ l) (map_append f cs ds)

  leaves_of-redact_entry :
      (e : Entry Number)
      → leaves_of (redact_entry kind opens e) ≡ map (redact_condition kind opens) (leaves_of e)
  unfolding leaves_of redact_entry
  leaves_of-redact_entry (leaf c) = refl
  leaves_of-redact_entry (group m cs) = refl

  -- The conditions of the rules that are read are the stored ones, as they are read.
  pub leaves-redact_entry :
      (es : List (Entry Number))
      → leaves (map (redact_entry kind opens) es) ≡ map (redact_condition kind opens) (leaves es)
  unfolding leaves
  leaves-redact_entry [] = refl
  leaves-redact_entry (e ∷ es) =
      rw
        (
          leaves_of-redact_entry e,
          leaves-redact_entry es,
          map_append (redact_condition kind opens) (leaves_of e) (leaves es),
        )
        refl

  is_churn-redact : (p : ℤ → Bool) (j : Json Number) → is_churn (redact p j) ≡ is_churn j
  unfolding is_churn redact
  is_churn-redact p (integer n) = elim (Bool-cases (p n)) [ inl e ↦ rw e refl | inr e ↦ rw e refl ]
  is_churn-redact p null = refl
  is_churn-redact p (boolean b) = refl
  is_churn-redact p (real x) = refl
  is_churn-redact p (text t) = refl
  is_churn-redact p (array a) = refl
  is_churn-redact p (object o) = refl

  has_churn-redact :
      (p : ℤ → Bool) (items : Items Number) → has_churn (redact_items p items) ≡ has_churn items
  unfolding has_churn redact
  has_churn-redact p no_items = refl
  has_churn-redact p (item j rest) = cc (is_churn-redact p j, has_churn-redact p rest)

  asks_churn-redact :
      (p : ℤ → Bool) (op : Option Op) (j : Json Number)
      → asks_churn op (redact p j) ≡ asks_churn op j
  unfolding asks_churn redact
  asks_churn-redact p (some is) j = is_churn-redact p j
  asks_churn-redact p (some in_list) (array items) = has_churn-redact p items
  asks_churn-redact p (some in_list) (integer n) = elim (Bool-cases (p n)) [
    | inl e ↦ rw e refl
    | inr e ↦ rw e refl
  ]
  asks_churn-redact p op j = refl

  asks_churn-redact_named :
      (of : Option RecordType) (op : Option Op) (c : Condition Number)
      → asks_churn op (redact_named opens of c).value ≡ asks_churn op c.value
  unfolding redact_named
  asks_churn-redact_named none op c = refl
  asks_churn-redact_named (some type) op c = asks_churn-redact (opens type) op c.value

  redact_named_op :
      (of : Option RecordType) (c : Condition Number) → (redact_named opens of c).op ≡ c.op
  unfolding redact_named
  redact_named_op none c = refl
  redact_named_op (some type) c = refl

  -- Reading the rules does not change whether they name churn.
  pub names_churned-redact_condition :
      (cs : List (Condition Number))
      → names_churned (map (redact_condition kind opens) cs) ≡ names_churned cs
  unfolding names_churned redact_condition
  names_churned-redact_condition [] = refl
  names_churned-redact_condition (c ∷ cs) =
      rw
        (
          redact_named_field (record_of kind c.field) c,
          redact_named_op (record_of kind c.field) c,
          asks_churn-redact_named (record_of kind c.field) (op_of c.op) c,
          names_churned-redact_condition cs,
        )
        refl
