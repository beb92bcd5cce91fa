-- ===== src/Segments/Parents.antt =====
-- A condition on a parent, and any condition, as it is read and as it is stored.
use revenact_backend.Prelude.{
  ◌≡◌, refl, ap, inl, inr, Bool, true, false, Option, none, some, List, [], ◌∷◌, ℕ, weaken,
  Bool-cases, String, All, any,
}
use revenact_backend.Prelude.Int.{ℤ}
use revenact_backend.Portfolio.Cursors.{Json}
use revenact_backend.Segments.Registry.{
  Kind, customer, account, Op, op_of, Field, RecordType, Attribute, resolve, or_else, is_excluded,
  is_parent, resolve_any, resolve_parent, static_field, remove_prefix,
}
use revenact_backend.Segments.Blocks.{World, any_of, Condition}
use revenact_backend.Segments.Validation.{Reader}
use revenact_backend.Segments.Presenting.{named_type, record_of, redact_named, redact_condition}
use revenact_backend.Segments.Queries.{Database, Q, matches, through}
use revenact_backend.Segments.Compiler.{own_q, is_prepared, side, sides, sides_q, parent_q, leaf_q}
use revenact_backend.Segments.Truths.{truth, truths, truth_of_parts, truths_cons}
use revenact_backend.Segments.Fields.{Fits, resolve-Fits, customer_side-Fits, account_side-Fits}
use revenact_backend.Segments.Leaves.{IsHome, AgreesAs, read_as, own_q-read}

module _ (world : World) (db : Database world.Number) (row : db.Row) (kind : Kind) where
  open world use {Number}

  any-matches :
      (p q : Q Number) (rows : List db.Row)
      → All (λ r. truth db r (some p) ≡ truth db r (some q)) rows
      → any (matches db p) rows ≡ any (matches db q) rows
  any-matches p q [] h = refl
  any-matches p q (r ∷ rs) h = cc (h.0, any-matches p q rs h.1)

  -- A condition of the same truths on the parents has the same truth on the row.
  side-read :
      (f : Option Field) (b : Bool) (p q : Option (Q Number)) (ps qs : Option (List (Q Number)))
      → truth db row p ≡ truth db row q
      → All (λ r. truth db r p ≡ truth db r q) (db.parents kind row)
      → truths db row ps ≡ truths db row qs
      → truths db row (side world f kind b p ps) ≡ truths db row (side world f kind b q qs)
  unfolding side
  side-read none b p q ps qs g h k = k
  side-read (some f) b none none ps qs g h k = refl
  side-read (some f) b none (some q) ps qs g h k = absurd (cc g)
  side-read (some f) b (some p) none ps qs g h k = absurd (cc g)
  side-read (some f) false (some p) (some q) ps qs g h k = refl
  side-read (some f) true (some p) (some q) ps qs g h k =
      truths_cons db row (some (through kind p)) (some (through kind q)) ps qs
        (unfold matches in ap some (any-matches p q (db.parents kind row) h)) k

-- A row at home whose parents are at home.
abbrev pub IsAtHome : {Number : Type 0} → Reader → (db : Database Number) → db.Row → Type 0
IsAtHome user db row =
    IsHome user db row × ((kind : Kind) → All (IsHome user db) (db.parents kind row))

module _ (world : World) (kind : Kind) (attributes : List Attribute) (user : Reader) (today : ℕ)
    (opens : RecordType → ℤ → Bool) (db : Database world.Number) (row : db.Row)
    (home : IsAtHome user db row) where
  open world use {Number}

  -- What a reader is not shown is an id, which the filter prepares.
  is_prepared-read :
      (parent : Kind) (of : Option RecordType) (f : Option Field)
      → Fits of f
      → (op : Option Op) (j : Json Number)
      → is_prepared world parent f op (read_as user opens of j) ≡ is_prepared world parent f op j
  unfolding is_prepared
  is_prepared-read parent of none fits op j = refl
  is_prepared-read parent of (some f) fits none j = refl
  is_prepared-read parent none (some f) fits (some op) j = refl
  is_prepared-read parent (some type) (some f) fits (some op) j = rw (fits.1) refl

  -- One side of a condition on a parent.
  one_side :
      (of : Option RecordType) (parent : Kind) (key : String) (op : Option Op) (j : Json Number)
      (ps qs : Option (List (Q Number)))
      → Fits of (resolve parent key attributes)
      → AgreesAs user opens of j
      → truths db row ps ≡ truths db row qs
      → truths db row (
          side world
            (resolve parent key attributes)
            parent
            (is_prepared world parent (resolve parent key attributes) op (read_as user opens of j))
            (own_q world parent attributes user today key op (read_as user opens of j))
            ps)
        ≡ truths db row (
            side world
              (resolve parent key attributes)
              parent
              (is_prepared world parent (resolve parent key attributes) op j)
              (own_q world parent attributes user today key op j)
              qs)
  one_side of parent key op j ps qs fits h k =
      rw (is_prepared-read parent of (resolve parent key attributes) fits op j) (
        side-read world db row parent (resolve parent key attributes)
          (is_prepared world parent (resolve parent key attributes) op j)
          (own_q world parent attributes user today key op (read_as user opens of j))
          (own_q world parent attributes user today key op j) ps qs
          (own_q-read world parent attributes user today opens db row of key fits op j home.0 h)
          (weaken
            (λ r at_home.
              own_q-read world parent attributes user today opens db r of key fits op j at_home h)
            (db.parents parent row) (home.1 parent))
          k)

  both_sides :
      (of : Option RecordType) (key : String) (op : Option Op) (j : Json Number)
      → Fits of (resolve customer key attributes)
      → Fits of (resolve account key attributes)
      → AgreesAs user opens of j
      → truth db row (sides_q world attributes user today key op (read_as user opens of j))
        ≡ truth db row (sides_q world attributes user today key op j)
  unfolding sides_q
  both_sides of key op j f g h =
      truth_of_parts db row any_of
        (sides world attributes user today key op (read_as user opens of j))
        (sides world attributes user today key op j)
        (unfold sides in
          one_side of customer key op j
            (side world (resolve account key attributes) account
              (is_prepared world account (resolve account key attributes) op
                (read_as user opens of j))
              (own_q world account attributes user today key op (read_as user opens of j))
              (some []))
            (side world (resolve account key attributes) account
              (is_prepared world account (resolve account key attributes) op j)
              (own_q world account attributes user today key op j) (some []))
            f h (one_side of account key op j (some []) (some []) g h refl))

  parent_q-read :
      (key : String) (op : Option Op) (j : Json Number)
      → AgreesAs user opens (named_type (resolve_parent key [])) j
      → truth db row (
          parent_q world attributes user today key op
            (read_as user opens (named_type (resolve_parent key [])) j))
        ≡ truth db row (parent_q world attributes user today key op j)
  unfolding parent_q resolve_parent
  parent_q-read key op j h = elim (Bool-cases (is_excluded key)) [
    | inl p ↦ rw p refl
    | inr p ↦ rw p (
        both_sides (named_type (or_else (resolve customer key []) (resolve account key []))) key op
          j (customer_side-Fits key attributes) (account_side-Fits key attributes p) (rw p at h))
  ]

  -- A condition of any kind.
  leaf_as :
      (c : Condition Number)
      → AgreesAs user opens (record_of kind c.field) c.value
      → truth db row (
          leaf_q world kind attributes user today
            (record c { value = read_as user opens (record_of kind c.field) c.value }))
        ≡ truth db row (leaf_q world kind attributes user today c)
  unfolding leaf_q record_of static_field resolve_any
  leaf_as c h = elim (Bool-cases (is_parent kind c.field)) [
    | inl p ↦
        rw p (parent_q-read (remove_prefix "parent." c.field) (op_of c.op) c.value (rw p at h))
    | inr p ↦ rw p (
        own_q-read world kind attributes user today opens db row
          (named_type (resolve kind c.field [])) c.field (resolve-Fits kind c.field attributes)
          (op_of c.op) c.value home.0 (rw p at h))
  ]

  redact_named-read :
      (of : Option RecordType) (c : Condition Number)
      → redact_named opens of c ≡ record c { value = read_as user opens of c.value }
  unfolding redact_named
  redact_named-read none c = refl
  redact_named-read (some type) c = refl

  pub leaf_q-redact :
      (c : Condition Number)
      → AgreesAs user opens (record_of kind c.field) c.value
      → truth db row (leaf_q world kind attributes user today (redact_condition kind opens c))
        ≡ truth db row (leaf_q world kind attributes user today c)
  unfolding redact_condition
  leaf_q-redact c h = rw (redact_named-read (record_of kind c.field) c) (leaf_as c h)
