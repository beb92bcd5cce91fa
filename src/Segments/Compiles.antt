-- ===== src/Segments/Compiles.antt =====
-- Rules that were checked compile without an exception.
use revenact_backend.Prelude.{
  ◌≡◌, refl, subst, inl, inr, true, false, Option, none, some, is_some, List, [], ◌∷◌, ◌++◌, All, ℕ,
  Bool, if◌then◌else◌, String, Bool-cases,
}
use revenact_backend.Prelude.Int.{ℤ}
use revenact_backend.Portfolio.Cursors.{Json}
use revenact_backend.Segments.Registry.{
  Kind, customer, account, Op, op_of, Field, RecordType, Attribute, resolve, resolve_any,
  resolve_parent, or_else, is_excluded, is_parent, remove_prefix, takes,
}
use revenact_backend.Segments.Blocks.{
  World, ok, require, wrong_operator, Condition, Entry, leaf, group, leaves, leaves_of,
}
use revenact_backend.Segments.Validation.{
  Reader, check_value, check_op, check_field, check_conditions,
}
use revenact_backend.Segments.Queries.{Q}
use revenact_backend.Segments.Parts.{map_each}
use revenact_backend.Segments.Compiler.{
  op_q, found_q, own_q, is_prepared, side, sides, sides_q, parent_q, leaf_q, entry_q,
}
use revenact_backend.Segments.Succeeds.{
  IsInRange, its_value, bound, then_first, then_second, ShortAs, IsShort,
}
use revenact_backend.Segments.Checking.{IsSound, field_q_some}
use revenact_backend.Segments.Soundness.{resolve-IsSound, same_field}

-- Django prepares a condition's lookups for each parent that has its field.
abbrev pub AreSidesPrepared :
    (world : World) → List Attribute → String → Option Op → Json world.Number → Type 0
AreSidesPrepared world attributes key op j =
    (is_prepared world customer (resolve customer key attributes) op j ≡ true)
    × (is_prepared world account (resolve account key attributes) op j ≡ true)

-- A condition whose lookups Django prepares, if it is on a parent.
abbrev pub IsPrepared : (world : World) → List Attribute → Kind → Condition world.Number → Type 0
IsPrepared world attributes kind c =
    if is_parent kind c.field
    then if is_excluded (remove_prefix "parent." c.field)
      then Unit
      else AreSidesPrepared world attributes (remove_prefix "parent." c.field) (op_of c.op) c.value
    else Unit

module _ (world : World) (today : ℕ) (in_range : IsInRange today) (attributes : List Attribute)
    (user : Reader) where
  open world use {Number}

  -- A field that was found and checked against the operator and the value.
  abbrev IsChecked : Option Field → Option Op → Json Number → Type 0
  IsChecked none op j = Unit
  IsChecked (some f) op j = (check_op world f op j ≡ ok tt) × ShortAs today f.type j

  op_some :
      (kind : Kind) (f : Field) (op : Option Op) (j : Json Number)
      → IsSound kind attributes f
      → check_op world f op j ≡ ok tt
      → ShortAs today f.type j
      → is_some (op_q world kind attributes user today f op j) ≡ true
  unfolding op_q check_op
  op_some kind f none j s h k = refl
  op_some kind f (some op) j s h k = elim (Bool-cases (takes f op)) [
    | inr p ↦ rw p refl
    | inl p ↦ rw p (
        field_q_some world today in_range kind attributes user f op j s
          (then_second (require (takes f op) (wrong_operator f)) (check_value world f op j) tt h) k)
  ]

  found_some :
      (kind : Kind) (key : String) (f : Option Field) (op : Option Op) (j : Json Number)
      → resolve kind key attributes ≡ f
      → IsChecked f op j
      → is_some (found_q world kind attributes user today f op j) ≡ true
  unfolding found_q
  found_some kind key none op j e h = refl
  found_some kind key (some f) op j e h =
      op_some kind f op j (resolve-IsSound kind key attributes f e) h.0 h.1

  own_some :
      (kind : Kind) (key : String) (op : Option Op) (j : Json Number)
      → IsChecked (resolve kind key attributes) op j
      → is_some (own_q world kind attributes user today key op j) ≡ true
  unfolding own_q
  own_some kind key op j = found_some kind key (resolve kind key attributes) op j refl

  side_some :
      (f : Option Field) (kind : Kind) (prepared : Bool) (q : Option (Q Number))
      (qs : Option (List (Q Number)))
      → prepared ≡ true
      → is_some q ≡ true
      → is_some qs ≡ true
      → is_some (side world f kind prepared q qs) ≡ true
  unfolding side
  side_some none kind prepared q qs ready h k = k
  side_some (some f) kind prepared q qs ready h k =
      rw (ready, (its_value q h).1, (its_value qs k).1) refl

  -- Both parents' fields are checked where the one that is looked up is.
  both-IsChecked :
      (c a : Option Field) (op : Option Op) (j : Json Number)
      → ((f g : Field) → c ≡ some f → a ≡ some g → f ≡ g)
      → IsChecked (or_else c a) op j
      → IsChecked c op j × IsChecked a op j
  unfolding or_else
  both-IsChecked none a op j same h = (tt, h)
  both-IsChecked (some f) none op j same h = (h, tt)
  both-IsChecked (some f) (some g) op j same h =
      (h, subst (λ x. IsChecked (some x) op j) (same f g refl refl) h)

  sides_some :
      (key : String) (op : Option Op) (j : Json Number)
      → is_excluded key ≡ false
      → IsChecked (or_else (resolve customer key attributes) (resolve account key attributes)) op j
      → AreSidesPrepared world attributes key op j
      → is_some (sides_q world attributes user today key op j) ≡ true
  unfolding sides_q sides
  sides_some key op j e h ready =
      rw (its_value (sides world attributes user today key op j) every).1 refl
    where
      both :
          IsChecked (resolve customer key attributes) op j
          × IsChecked (resolve account key attributes) op j
      both =
          both-IsChecked (resolve customer key attributes) (resolve account key attributes) op j
            (λ f g. same_field key attributes f g e) h

      every : is_some (sides world attributes user today key op j) ≡ true
      every =
          side_some (resolve customer key attributes) customer
            (is_prepared world customer (resolve customer key attributes) op j)
            (own_q world customer attributes user today key op j) _ ready.0
            (own_some customer key op j both.0)
            (side_some (resolve account key attributes) account
              (is_prepared world account (resolve account key attributes) op j)
              (own_q world account attributes user today key op j) (some []) ready.1
              (own_some account key op j both.1) refl)

  leaf_some :
      (kind : Kind) (c : Condition Number)
      → IsChecked (resolve_any kind c.field attributes) (op_of c.op) c.value
      → IsPrepared world attributes kind c
      → is_some (leaf_q world kind attributes user today c) ≡ true
  unfolding leaf_q resolve_any resolve_parent parent_q
  leaf_some kind c h ready = elim (Bool-cases (is_parent kind c.field)) [
    | inr p ↦ rw p (own_some kind c.field (op_of c.op) c.value (rw p at h))
    | inl p ↦ elim (Bool-cases (is_excluded (remove_prefix "parent." c.field))) [
      | inl q ↦ rw (p, q) refl
      | inr q ↦
          rw (p, q)
            (sides_some (remove_prefix "parent." c.field) (op_of c.op) c.value q (rw (p, q) at h)
              (rw (p, q) at ready))
    ]
  ]

  abbrev IsCheckedFor : Kind → Condition Number → Type 0
  IsCheckedFor kind c =
      IsChecked (resolve_any kind c.field attributes) (op_of c.op) c.value
      × IsPrepared world attributes kind c

  leaves_some :
      (kind : Kind) (cs : List (Condition Number))
      → All (IsCheckedFor kind) cs
      → is_some (map_each (leaf_q world kind attributes user today) cs) ≡ true
  unfolding map_each
  leaves_some kind [] h = refl
  leaves_some kind (c ∷ cs) h =
      rw
        (
          (its_value (leaf_q world kind attributes user today c) (leaf_some kind c h.0.0 h.0.1)).1,
          (its_value (map_each (leaf_q world kind attributes user today) cs)
              (leaves_some kind cs h.1)).1,
        )
        refl

  entry_some :
      (kind : Kind) (e : Entry Number)
      → All (IsCheckedFor kind) (leaves_of e)
      → is_some (entry_q world kind attributes user today e) ≡ true
  unfolding entry_q leaves_of
  entry_some kind (leaf c) h =
      rw (its_value (leaf_q world kind attributes user today c) (leaf_some kind c h.0.0 h.0.1)).1
        refl
  entry_some kind (group m cs) h =
      rw
        (its_value (map_each (leaf_q world kind attributes user today) cs)
          (leaves_some kind cs h)).1
        refl

  IsChecked-split :
      (kind : Kind) (cs ds : List (Condition Number))
      → All (IsCheckedFor kind) (cs ++ ds)
      → All (IsCheckedFor kind) cs × All (IsCheckedFor kind) ds
  IsChecked-split kind [] ds h = (tt, h)
  IsChecked-split kind (c ∷ cs) ds h = let (l, r) = IsChecked-split kind cs ds h.1 in ((h.0, l), r)

  pub entries_some :
      (kind : Kind) (es : List (Entry Number))
      → All (IsCheckedFor kind) (leaves es)
      → is_some (map_each (entry_q world kind attributes user today) es) ≡ true
  unfolding map_each leaves
  entries_some kind [] h = refl
  entries_some kind (e ∷ es) h =
      let (first, others) = IsChecked-split kind (leaves_of e) (leaves es) h in
      rw
        (
          (its_value (entry_q world kind attributes user today e) (entry_some kind e first)).1,
          (its_value (map_each (entry_q world kind attributes user today) es)
              (entries_some kind es others)).1,
        )
        refl

  check_field-IsChecked :
      (f : Option Field) (c : Condition Number) (r : Option RecordType)
      → check_field world f c ≡ ok r
      → IsShort today f c.value
      → IsChecked f (op_of c.op) c.value
  unfolding check_field
  check_field-IsChecked none c r h k = absurd (cc h)
  check_field-IsChecked (some f) c r h k =
      (passes (then_first (check_op world f (op_of c.op) c.value) (ok f.record_type) r h), k)
    where
      passes :
          (a : Unit) × (check_op world f (op_of c.op) c.value ≡ ok a)
          → check_op world f (op_of c.op) c.value ≡ ok tt
      passes (tt, p) = p

  pub check_conditions-IsChecked :
      (kind : Kind) (cs : List (Condition Number)) (wanted : RecordType → List ℤ)
      → check_conditions world kind attributes cs ≡ ok wanted
      → All (λ c. IsShort today (resolve_any kind c.field attributes) c.value) cs
      → All (IsPrepared world attributes kind) cs
      → All (IsCheckedFor kind) cs
  unfolding check_conditions
  check_conditions-IsChecked kind [] wanted h k ready = tt
  check_conditions-IsChecked kind (c ∷ cs) wanted h k ready =
      let (r, (p, rest)) =
        bound (check_field world (resolve_any kind c.field attributes) c) _ wanted h in
      let (w, (q, last)) = bound (check_conditions world kind attributes cs) _ wanted rest in
      (
        (check_field-IsChecked (resolve_any kind c.field attributes) c r p k.0, ready.0),
        check_conditions-IsChecked kind cs w q k.1 ready.1,
      )
