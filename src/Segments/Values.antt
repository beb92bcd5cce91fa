-- ===== src/Segments/Values.antt =====
-- services/segments/compiler.py: the query of a value that a column is compared with.
use revenact_backend.Prelude.{
  ℕ, Bool, true, false, not, Option, none, some, [], ◌∷◌, map, str_eq, if◌then◌else◌,
}
use revenact_backend.Prelude.Int.{ℤ, pos, ◌+ℤ◌, ◌-ℤ◌, eqb_ℤ}
use revenact_backend.Portfolio.Cursors.{
  Json, null, boolean, integer, real, text, array, object, no_items, item, no_members,
}
use revenact_backend.Segments.Registry.{
  Op, gt, lt, between, is_empty, is_not_empty, within_next, within_last, is, is_not, in_list,
  FieldType,
}
use revenact_backend.Segments.Blocks.{World, any_of}
use revenact_backend.Segments.Queries.{
  Column, Operand, given, a_date, exact, above, below, from, up_to, is_null, compares, among, Q,
  test, both, either, negated, nothing, combine,
}
use revenact_backend.Segments.Parts.{◌>>=◌, date_at, iterate, pair_of, map_each}

-- What `field in ("", x)` says of an empty text, for a text field.
unfoldable pub blank_too : {Number : Type 0} → FieldType → Column → Q Number → Q Number
blank_too FieldType.text column q = either q (test (compares exact column (given (text ""))))
blank_too _ column q = q

unfoldable pub not_blank : {Number : Type 0} → FieldType → Column → Q Number → Q Number
not_blank FieldType.text column q =
    both q (negated (test (compares exact column (given (text "")))))
not_blank _ column q = q

module _ (world : World) where
  open world use {Number, is_zero, whole_days, from_iso}

  -- The days of `timedelta(days=value)`, TypeError where the value is no number.
  unfoldable pub days_of : Json Number → Option ℤ
  days_of (integer n) = some n
  days_of (boolean b) = some (pos (if b then 1 else 0))
  days_of (real x) = whole_days x
  days_of _ = none

  -- `today - timedelta(days=value)` and `today + timedelta(days=value)`
  unfoldable pub ago : ℕ → Json Number → Option ℕ
  unfolding days_of date_at
  ago today j = days_of j >>= λ n. date_at (pos today -ℤ n)

  unfoldable pub ahead : ℕ → Json Number → Option ℕ
  unfolding days_of date_at
  ahead today j = days_of j >>= λ n. date_at (pos today +ℤ n)

  -- `date.fromisoformat(value)`
  unfoldable pub read_date : Json Number → Option ℕ
  read_date (text t) = from_iso t
  read_date _ = none

  -- `if value`
  unfoldable pub is_true : Json Number → Bool
  is_true null = false
  is_true (boolean b) = b
  is_true (integer n) = not (eqb_ℤ n (pos 0))
  is_true (real x) = not (is_zero x)
  is_true (text t) = not (str_eq t "")
  is_true (array no_items) = false
  is_true (array (item _ _)) = true
  is_true (object no_members) = false
  is_true (object _) = true

  -- What a value is compared as.
  unfoldable pub operand : FieldType → Json Number → Option (Operand Number)
  unfolding read_date
  operand FieldType.date j = read_date j >>= λ d. some (a_date d)
  operand _ j = some (given j)

  abbrev pub range : Column → Operand Number → Operand Number → Q Number
  range column low high = both (test (compares from column low)) (test (compares up_to column high))

  -- `_days`: days since a column's date; never touched is more days than any number.
  unfoldable pub days_q : Column → ℕ → Op → Json Number → Option (Q Number)
  unfolding ago pair_of iterate
  days_q column today gt j = ago today j >>= λ d.
      some (either (test (compares below column (a_date d))) (test (is_null column)))
  days_q column today lt j = ago today j >>= λ d. some (test (compares above column (a_date d)))
  days_q column today between j = do
    (low, high) ← pair_of (iterate j)
    start ← ago today high
    end ← ago today low
    some (range column (a_date start) (a_date end))
  days_q column today op j = some nothing

  -- The lookups of a type that is not DAYS, but for emptiness.
  unfoldable pub value_q : FieldType → Column → ℕ → Bool → Op → Json Number → Option (Q Number)
  unfolding operand iterate map_each pair_of ahead ago combine
  value_q type column today json gt j =
      operand type j >>= λ v. some (test (compares above column v))
  value_q type column today json lt j =
      operand type j >>= λ v. some (test (compares below column v))
  value_q type column today json between j = do
    js ← iterate j
    vs ← map_each (operand type) js
    elim vs [ low ∷ high ∷ [] ↦ some (range column low high) | _ ↦ none ]
  value_q type column today json within_next j =
      ahead today j >>= λ end. some (range column (a_date today) (a_date end))
  value_q type column today json within_last j =
      ago today j >>= λ start. some (range column (a_date start) (a_date today))
  value_q type column today json is j = some (test (compares exact column (given j)))
  value_q type column today json is_not j =
      some (either (negated (test (compares exact column (given j)))) (test (is_null column)))
  value_q type column today json in_list j = iterate j >>= λ js. some (
      if json
      then combine any_of (map (λ part. test (compares exact column (given part))) js)
      else test (among column js))
  value_q type column today json _ j = some nothing

  -- `_typed`
  unfoldable pub typed : FieldType → Column → ℕ → Bool → Op → Json Number → Option (Q Number)
  unfolding blank_too not_blank days_q value_q
  typed type column today json is_empty j = some (blank_too type column (test (is_null column)))
  typed type column today json is_not_empty j =
      some (not_blank type column (negated (test (is_null column))))
  typed FieldType.days column today json op j = days_q column today op j
  typed type column today json op j = value_q type column today json op j
