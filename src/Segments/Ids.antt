-- ===== src/Segments/Ids.antt =====
-- The ids that conditions name, as sets.
use revenact_backend.Prelude.{
  ◌≡◌, refl, inl, inr, Bool, true, false, ◌&&◌, ◌||◌, Option, none, some, List, [], ◌∷◌, Bool-cases,
  String, arith, ◌⊎◌,
}
use revenact_backend.Prelude.Int.{ℤ, eqb_ℤ, eqb_ℤ_eq}
use revenact_backend.Portfolio.Cursors.{Json}
use revenact_backend.Segments.Registry.{RecordType}
use revenact_backend.Segments.Blocks.{has_id, insert_id, add_ids, ids_in}
use revenact_backend.Segments.Validation.{Reader, is_named, named, openable, is_for, want}
use revenact_backend.Segments.Presenting.{is_key}

eqb_ℤ_refl : (n : ℤ) → eqb_ℤ n n ≡ true
eqb_ℤ_refl n = ground arith

true_or : (b c : Bool) → c ≡ true → (b || c) ≡ true
true_or true c p = refl
true_or false c p = p

or_true : (b c : Bool) → b ≡ true → (b || c) ≡ true
or_true true c p = refl
or_true false c p = absurd (cc p)

pub has_id-insert_id : (n : ℤ) (ids : List ℤ) → has_id n (insert_id n ids) ≡ true
unfolding insert_id
has_id-insert_id n ids = elim (Bool-cases (has_id n ids)) [
  | inl p ↦ rw (p, p)
  | inr p ↦ rw p (unfold has_id in or_true (eqb_ℤ n n) (has_id n ids) (eqb_ℤ_refl n))
]

-- Every id of the first set is in the second.
abbrev pub IsWithin : List ℤ → List ℤ → Type 0
IsWithin ns ms = (n : ℤ) → has_id n ns ≡ true → has_id n ms ≡ true

pub insert_id-IsWithin : (m : ℤ) (ids : List ℤ) → IsWithin ids (insert_id m ids)
unfolding insert_id
insert_id-IsWithin m ids n p = elim (Bool-cases (has_id m ids)) [
  | inl q ↦ rw q p
  | inr q ↦ rw q (unfold has_id in true_or (eqb_ℤ n m) (has_id n ids) p)
]

pub has_id_self : (n : ℤ) → has_id n (n ∷ []) ≡ true
unfolding has_id
has_id_self n = or_true (eqb_ℤ n n) false (eqb_ℤ_refl n)

-- What an id of `m ∷ ids` is.
pub either_id :
    (n m : ℤ) (ids : List ℤ) → has_id n (m ∷ ids) ≡ true → (n ≡ m) ⊎ (has_id n ids ≡ true)
unfolding has_id
either_id n m ids p = elim (Bool-cases (eqb_ℤ n m)) [
  | inl q ↦ inl (eqb_ℤ_eq n m q)
  | inr q ↦ inr (rw q at p)
]

pub add_ids_left : (ns ms : List ℤ) → IsWithin ns (add_ids ns ms)
unfolding add_ids
add_ids_left [] ms n p = absurd (unfold has_id in cc p)
add_ids_left (k ∷ ns) ms n p = elim (either_id n k ns p) [
  | inl e ↦ rw e (has_id-insert_id k (add_ids ns ms))
  | inr q ↦ insert_id-IsWithin k (add_ids ns ms) n (add_ids_left ns ms n q)
]

pub add_ids_right : (ns ms : List ℤ) → IsWithin ms (add_ids ns ms)
unfolding add_ids
add_ids_right [] ms n p = p
add_ids_right (k ∷ ns) ms n p = insert_id-IsWithin k (add_ids ns ms) n (add_ids_right ns ms n p)

and_false : (b : Bool) → (b && false) ≡ false
and_false true = refl
and_false false = refl

is_key-named :
    (type : RecordType) (user : Reader) (n m : ℤ) (ids : List ℤ) (rest : List (ℤ × String))
    (name : Option String)
    → user.name_of type m ≡ name
    → is_key n rest ≡ (has_id n ids && is_named user type n)
    → is_key n (named m name rest) ≡ (has_id n (m ∷ ids) && is_named user type n)
unfolding is_key named has_id
is_key-named type user n m ids rest none e h = elim (Bool-cases (eqb_ℤ n m)) [
  | inr q ↦ rw q h
  | inl q ↦ rw (q, eqb_ℤ_eq n m q, e) (rw (eqb_ℤ_eq n m q, e, and_false (has_id m ids)) at h)
]
is_key-named type user n m ids rest (some name) e h = elim (Bool-cases (eqb_ℤ n m)) [
  | inr q ↦ rw q h
  | inl q ↦ rw (q, eqb_ℤ_eq n m q, e) refl
]

-- The keys of the names are the ids that may be named.
pub is_key-openable :
    (type : RecordType) (user : Reader) (n : ℤ) (ids : List ℤ)
    → is_key n (openable type ids user) ≡ (has_id n ids && is_named user type n)
unfolding openable
is_key-openable type user n [] = unfold is_key has_id in refl
is_key-openable type user n (m ∷ ids) =
    is_key-named type user n m ids (openable type ids user) (user.name_of type m) refl
      (is_key-openable type user n ids)

-- The ids of a condition that names records of a type are among those that all conditions name.
pub want-IsWithin :
    {Number : Type 0} (type : RecordType) (of : Option RecordType) (j : Json Number)
    (wanted : RecordType → List ℤ)
    → is_for of type ≡ true
    → IsWithin (ids_in j) (want of j wanted type)
unfolding want
want-IsWithin type of j wanted e = rw e (add_ids_left (ids_in j) (wanted type))

pub want_keeps :
    {Number : Type 0} (type : RecordType) (of : Option RecordType) (j : Json Number)
    (wanted : RecordType → List ℤ)
    → IsWithin (wanted type) (want of j wanted type)
unfolding want
want_keeps type of j wanted = elim (Bool-cases (is_for of type)) [
  | inl p ↦ rw p (add_ids_right (ids_in j) (wanted type))
  | inr p ↦ rw p (λ n q. q)
]
