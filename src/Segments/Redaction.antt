-- ===== src/Segments/Redaction.antt =====
-- A value that a reader reads compares with the records of their book as the stored one does.
use revenact_backend.Prelude.{
  ◌≡◌, refl, sym, ◌∙◌, inl, inr, Bool, true, false, ◌||◌, Option, none, some, List, [], ◌∷◌,
  Bool-cases,
}
use revenact_backend.Prelude.Int.{ℤ, eqb_ℤ, eqb_ℤ_eq}
use revenact_backend.Portfolio.Cursors.{
  Json, null, boolean, integer, real, text, array, object, Items, no_items, item,
}
use revenact_backend.Segments.Registry.{RecordType}
use revenact_backend.Segments.Blocks.{has_id, insert_id, ids_in_items}
use revenact_backend.Segments.Validation.{Reader, is_named}
use revenact_backend.Segments.Presenting.{redact, redact_items}
use revenact_backend.Segments.Queries.{is_id, is_id_in}
use revenact_backend.Segments.Parts.{list_of, present, opened}
use revenact_backend.Segments.Ids.{has_id_self, either_id, insert_id-IsWithin, has_id-insert_id}

-- An id, if there is one, that the reader may see named.
unfoldable pub is_home : Reader → RecordType → Option ℤ → Bool
is_home user type none = true
is_home user type (some n) = is_named user type n

module _ (user : Reader) (type : RecordType) (opens : ℤ → Bool) where
  -- Of these ids, the ones that are kept are those that the reader may see named.
  abbrev pub Agrees : List ℤ → Type 0
  Agrees ids = (n : ℤ) → has_id n ids ≡ true → opens n ≡ is_named user type n

  Agrees-head : (n : ℤ) (ids : List ℤ) → Agrees (insert_id n ids) → opens n ≡ is_named user type n
  Agrees-head n ids h = h n (has_id-insert_id n ids)

  Agrees-tail : (n : ℤ) (ids : List ℤ) → Agrees (insert_id n ids) → Agrees ids
  Agrees-tail n ids h m p = h m (insert_id-IsWithin n ids m p)

-- An id that may not be named is that of no record at home.
is_id-redact_id :
    (Number : Type 0) (user : Reader) (type : RecordType) (opens : ℤ → Bool) (id : Option ℤ) (m : ℤ)
    → is_home user type id ≡ true
    → opens m ≡ is_named user type m
    → is_id {Number = Number} id (redact opens (integer m)) ≡ is_id {Number = Number} id (integer m)
unfolding redact is_id is_home
is_id-redact_id Number user type opens none m e h = refl
is_id-redact_id Number user type opens (some n) m e h = elim (Bool-cases (is_named user type m)) [
  | inl p ↦ rw (h, p) refl
  | inr p ↦ elim (Bool-cases (eqb_ℤ n m)) [
    | inl q ↦ absurd (cc (sym p ∙ (rw (eqb_ℤ_eq n m q) at e)))
    | inr q ↦ rw (h, p, q) refl
  ]
]

pub is_id-null : (Number : Type 0) (id : Option ℤ) → is_id {Number = Number} id null ≡ false
unfolding is_id
is_id-null Number none = refl
is_id-null Number (some n) = refl

pub is_id-array :
    {Number : Type 0} (id : Option ℤ) (items : Items Number) → is_id id (array items) ≡ false
unfolding is_id
is_id-array none items = refl
is_id-array (some n) items = refl

cong_or : {a b c d : Bool} → a ≡ b → c ≡ d → (a || c) ≡ (b || d)
cong_or p q = rw (p, q)

module _ {Number : Type 0} (user : Reader) (type : RecordType) (opens : ℤ → Bool) where
  pub opened-present :
      (js : List (Json Number)) → opened type user (present js) ≡ opened type user js
  unfolding opened present
  opened-present [] = refl
  opened-present (null ∷ js) = opened-present js
  opened-present (boolean b ∷ js) = opened-present js
  opened-present (real x ∷ js) = opened-present js
  opened-present (text t ∷ js) = opened-present js
  opened-present (array a ∷ js) = opened-present js
  opened-present (object o ∷ js) = opened-present js
  opened-present (integer n ∷ js) = rw (opened-present js)

  -- An id that is read counts as the one that is stored.
  opened-redact_id :
      (n : ℤ) (js ks : List (Json Number))
      → opens n ≡ is_named user type n
      → opened type user js ≡ opened type user ks
      → opened type user (redact opens (integer n) ∷ js) ≡ opened type user (integer n ∷ ks)
  unfolding opened redact
  opened-redact_id n js ks e h = elim (Bool-cases (is_named user type n)) [
    | inl p ↦ rw (e, p) (rw p (rw h))
    | inr p ↦ rw (e, p) h
  ]

  pub opened-redact_items :
      (items : Items Number)
      → Agrees user type opens (ids_in_items items)
      → opened type user (list_of (redact_items opens items)) ≡ opened type user (list_of items)
  unfolding list_of ids_in_items redact opened
  opened-redact_items no_items h = refl
  opened-redact_items (item null rest) h = opened-redact_items rest h
  opened-redact_items (item (boolean b) rest) h = opened-redact_items rest h
  opened-redact_items (item (real x) rest) h = opened-redact_items rest h
  opened-redact_items (item (text t) rest) h = opened-redact_items rest h
  opened-redact_items (item (array a) rest) h = opened-redact_items rest h
  opened-redact_items (item (object o) rest) h = opened-redact_items rest h
  opened-redact_items (item (integer n) rest) h =
      opened-redact_id n (list_of (redact_items opens rest)) (list_of rest)
        (Agrees-head user type opens n (ids_in_items rest) h)
        (opened-redact_items rest (Agrees-tail user type opens n (ids_in_items rest) h))

  pub is_id_in-present :
      (id : Option ℤ) (js : List (Json Number)) → is_id_in id (present js) ≡ is_id_in id js
  unfolding is_id_in present is_id
  is_id_in-present id [] = refl
  is_id_in-present none (null ∷ js) = is_id_in-present none js
  is_id_in-present (some n) (null ∷ js) = is_id_in-present (some n) js
  is_id_in-present id (boolean b ∷ js) = rw (is_id_in-present id js)
  is_id_in-present id (real x ∷ js) = rw (is_id_in-present id js)
  is_id_in-present id (text t ∷ js) = rw (is_id_in-present id js)
  is_id_in-present id (array a ∷ js) = rw (is_id_in-present id js)
  is_id_in-present id (object o ∷ js) = rw (is_id_in-present id js)
  is_id_in-present id (integer n ∷ js) = rw (is_id_in-present id js)

  pub is_id-redact :
      (id : Option ℤ) (j : Json Number)
      → is_home user type id ≡ true
      → Agrees user type opens (ids_in_items (item j no_items))
      → is_id id (redact opens j) ≡ is_id id j
  unfolding ids_in_items insert_id has_id
  is_id-redact id null e h = unfold redact in refl
  is_id-redact id (boolean b) e h = unfold redact in refl
  is_id-redact id (real x) e h = unfold redact in refl
  is_id-redact id (text t) e h = unfold redact in refl
  is_id-redact id (array a) e h =
      unfold redact in is_id-array id (redact_items opens a) ∙ sym (is_id-array id a)
  is_id-redact id (object o) e h = unfold redact in refl
  is_id-redact id (integer m) e h =
      is_id-redact_id Number user type opens id m e (h m (has_id_self m))

  pub is_id_in-redact_items :
      (id : Option ℤ) (items : Items Number)
      → is_home user type id ≡ true
      → Agrees user type opens (ids_in_items items)
      → is_id_in id (list_of (redact_items opens items)) ≡ is_id_in id (list_of items)
  unfolding is_id_in list_of redact ids_in_items
  is_id_in-redact_items id no_items e h = refl
  is_id_in-redact_items id (item null rest) e h = rw (is_id_in-redact_items id rest e h)
  is_id_in-redact_items id (item (boolean b) rest) e h = rw (is_id_in-redact_items id rest e h)
  is_id_in-redact_items id (item (real x) rest) e h = rw (is_id_in-redact_items id rest e h)
  is_id_in-redact_items id (item (text t) rest) e h = rw (is_id_in-redact_items id rest e h)
  is_id_in-redact_items id (item (object o) rest) e h = rw (is_id_in-redact_items id rest e h)
  is_id_in-redact_items id (item (array a) rest) e h =
      rw
        (is_id-array id a, is_id-array id (redact_items opens a), is_id_in-redact_items id rest e h)
  is_id_in-redact_items id (item (integer m) rest) e h =
      cong_or
        (is_id-redact_id Number user type opens id m e
          (Agrees-head user type opens m (ids_in_items rest) h))
        (is_id_in-redact_items id rest e (Agrees-tail user type opens m (ids_in_items rest) h))

  pub Agrees-rest :
      (j : Json Number) (rest : Items Number)
      → Agrees user type opens (ids_in_items (item j rest))
      → Agrees user type opens (ids_in_items rest)
  unfolding ids_in_items
  Agrees-rest (integer n) rest h = Agrees-tail user type opens n (ids_in_items rest) h
  Agrees-rest null rest h = h
  Agrees-rest (boolean b) rest h = h
  Agrees-rest (real x) rest h = h
  Agrees-rest (text t) rest h = h
  Agrees-rest (array a) rest h = h
  Agrees-rest (object o) rest h = h

  pub Agrees-first :
      (j : Json Number) (rest : Items Number)
      → Agrees user type opens (ids_in_items (item j rest))
      → Agrees user type opens (ids_in_items (item j no_items))
  unfolding ids_in_items insert_id has_id
  Agrees-first (integer n) rest h m p = elim (either_id m n [] p) [
    | inl e ↦ rw e (Agrees-head user type opens n (ids_in_items rest) h)
    | inr q ↦ absurd (cc q)
  ]
  Agrees-first null rest h m p = absurd (cc p)
  Agrees-first (boolean b) rest h m p = absurd (cc p)
  Agrees-first (real x) rest h m p = absurd (cc p)
  Agrees-first (text t) rest h m p = absurd (cc p)
  Agrees-first (array a) rest h m p = absurd (cc p)
  Agrees-first (object o) rest h m p = absurd (cc p)
