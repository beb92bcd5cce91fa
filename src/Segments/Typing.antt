-- ===== src/Segments/Typing.antt =====
-- A condition that was checked compiles without an exception.
use revenact_backend.Prelude.{◌≡◌, refl, Bool, true, is_some, ℕ}
use revenact_backend.Portfolio.Cursors.{Json, array, no_items, item}
use revenact_backend.Segments.Registry.{
  Op, gt, lt, between, is_empty, is_not_empty, within_next, within_last, is, is_not, in_list,
  FieldType, Field,
}
use revenact_backend.Segments.Blocks.{World, ok, bad_value, not_a_window}
use revenact_backend.Segments.Validation.{
  check_value, check_between, check_list, scalar_as, is_window,
}
use revenact_backend.Segments.Queries.{Column}
use revenact_backend.Segments.Parts.{iterate}
use revenact_backend.Segments.Values.{ago, ahead, days_q, value_q, typed}
use revenact_backend.Segments.Succeeds.{
  IsInRange, its_value, held, then_first, window_ahead, window_ago, ShortAs, typed_gt, typed_lt,
  typed_pair, two_scalars,
}

module _ (world : World) (today : ℕ) (in_range : IsInRange today) where
  open world use {Number}

  abbrev Short : FieldType → Json Number → Type 0
  Short = ShortAs today

  typed_between :
      (type : FieldType) (column : Column) (json : Bool) (j : Json Number)
      → check_between world type j ≡ ok tt
      → Short type j
      → is_some (typed world type column today json between j) ≡ true
  typed_between type column json (array (item a (item b no_items))) h k =
      let ((s, p), (t, q)) = two_scalars world today in_range type a b h in
      typed_pair world today in_range type column json a b s t p q k
  typed_between type column json j h k = absurd (unfold check_between in cc h)

  typed_next :
      (type : FieldType) (column : Column) (json : Bool) (j : Json Number)
      → is_window j ≡ true
      → is_some (typed world type column today json within_next j) ≡ true
  unfolding typed value_q days_q
  typed_next FieldType.days column json j h = refl
  typed_next type column json j h =
      rw (its_value (ahead world today j) (window_ahead world today in_range j h)).1 refl

  typed_last :
      (type : FieldType) (column : Column) (json : Bool) (j : Json Number)
      → is_window j ≡ true
      → is_some (typed world type column today json within_last j) ≡ true
  unfolding typed value_q days_q
  typed_last FieldType.days column json j h = refl
  typed_last type column json j h =
      rw (its_value (ago world today j) (window_ago world today in_range j h)).1 refl

  typed_is :
      (type : FieldType) (column : Column) (json : Bool) (j : Json Number)
      → (is_some (typed world type column today json is j) ≡ true)
        × (is_some (typed world type column today json is_not j) ≡ true)
  unfolding typed value_q days_q
  typed_is FieldType.days column json j = (refl, refl)
  typed_is type column json j = (refl, refl)

  pub list_iterates :
      (f : Field) (j : Json Number) → check_list f j ≡ ok tt → is_some (iterate j) ≡ true
  unfolding check_list iterate
  list_iterates f (array items) h = refl
  list_iterates f j h = absurd (cc h)

  typed_in :
      (type : FieldType) (column : Column) (json : Bool) (j : Json Number)
      → is_some (iterate j) ≡ true
      → is_some (typed world type column today json in_list j) ≡ true
  unfolding typed value_q days_q
  typed_in FieldType.days column json j h = refl
  typed_in type column json j h = rw (its_value (iterate j) h).1 refl

  pub typed_some :
      (f : Field) (column : Column) (json : Bool) (op : Op) (j : Json Number)
      → check_value world f op j ≡ ok tt
      → Short f.type j
      → is_some (typed world f.type column today json op j) ≡ true
  unfolding check_value
  typed_some f column json is_empty j h k = unfold typed in refl
  typed_some f column json is_not_empty j h k = unfold typed in refl
  typed_some f column json gt j h k =
      let (s, p) = then_first (scalar_as world f.type j) (ok tt) tt h in
      typed_gt world today in_range f.type column json j s p k
  typed_some f column json lt j h k =
      let (s, p) = then_first (scalar_as world f.type j) (ok tt) tt h in
      typed_lt world today in_range f.type column json j s p k
  typed_some f column json between j h k = typed_between f.type column json j h k
  typed_some f column json within_next j h k =
      typed_next f.type column json j (held (is_window j) (bad_value not_a_window) h)
  typed_some f column json within_last j h k =
      typed_last f.type column json j (held (is_window j) (bad_value not_a_window) h)
  typed_some f column json is j h k = (typed_is f.type column json j).0
  typed_some f column json is_not j h k = (typed_is f.type column json j).1
  typed_some f column json in_list j h k = typed_in f.type column json j (list_iterates f j h)
