-- ===== src/Segments/Succeeds.antt =====
-- The parts of a condition that was checked compile without an exception.
use revenact_backend.Prelude.{
  ◌≡◌, refl, Bool, true, false, ◌&&◌, not, Option, none, some, is_some, ℕ, ◌+◌, ◌<◌, ◌≤◌, arith,
}
use revenact_backend.Prelude.Int.{
  ℤ, pos, negsuc, ltb_ℤ, leb_ℤ, ◌≤ℤ◌, ◌+ℤ◌, ◌-ℤ◌, +ℤ_parts, -ℤ_parts,
}
use revenact_backend.Portfolio.Cursors.{
  Json, null, boolean, integer, real, text, array, object, no_items, item,
}
use revenact_backend.Segments.Registry.{gt, lt, between, FieldType, Field}
use revenact_backend.Segments.Blocks.{
  World, Checked, ok, raises, RuleError, require, any_of, max_days,
}
use revenact_backend.Segments.Blocks as Blocks
use revenact_backend.Segments.Validation.{
  check_between, scalar_as, scalar_date, day_of, is_days, is_window, is_above, Scalar, a_number,
}
use revenact_backend.Segments.Queries.{Column}
use revenact_backend.Segments.Parts.{date_at, iterate, list_of, map_each, max_date, pair_of}
use revenact_backend.Segments.Values.{
  ago, ahead, days_of, read_date, operand, days_q, value_q, typed,
}
use revenact_backend.Segments.Shows.{Shows}

-- Days so early or late that neither the windows of the rules nor the days of the DAYS fields are out
-- of the calendar.
pub record IsInRange (today : ℕ) : Type 0 where
  pub early : 3650 < today
  pub late : today + 3650 ≤ max_date

pub its_value : {A : Type 0} (o : Option A) → is_some o ≡ true → (a : A) × (o ≡ some a)
its_value none h = absurd (cc h)
its_value (some a) h = (a, refl)

pub bound :
    {A B : Type 0} (m : Checked A) (f : A → Checked B) (b : B)
    → Blocks.◌>>=◌ m f ≡ ok b
    → (a : A) × ((m ≡ ok a) × (f a ≡ ok b))
bound (ok a) f b h = (a, (refl, h))
bound (raises e) f b h = absurd (cc h)

-- A check that passes, and one that is required, have held.
pub held : (b : Bool) (e : RuleError) → require b e ≡ ok tt → b ≡ true
held true e h = refl
held false e h = absurd (cc h)

pub then_first :
    {A B : Type 0} (m : Checked A) (n : Checked B) (b : B)
    → Blocks.◌>>◌ m n ≡ ok b
    → (a : A) × (m ≡ ok a)
then_first (ok a) n b h = (a, refl)
then_first (raises e) n b h = absurd (cc h)

pub then_second :
    {A B : Type 0} (m : Checked A) (n : Checked B) (b : B) → Blocks.◌>>◌ m n ≡ ok b → n ≡ ok b
then_second (ok a) n b h = h
then_second (raises e) n b h = absurd (cc h)

date_at_some : (n : ℤ) → pos 1 ≤ℤ n → n ≤ℤ pos max_date → is_some (date_at n) ≡ true
unfolding date_at
date_at_some (pos n) h k = ground arith
date_at_some (negsuc n) h k = ground arith

-- A number of days is short where it ends after the first day of the calendar.
abbrev pub is_short : ℕ → ℤ → Bool
is_short today n = ltb_ℤ n (pos today)

-- What is asked of the value of a field of a type.
abbrev pub ShortAs : {Number : Type 0} → ℕ → FieldType → Json Number → Type 0
ShortAs today FieldType.days j = Shows (is_short today) j
ShortAs today _ j = Unit

-- The whole numbers in the value of a field of days are days that are in the calendar.
abbrev pub IsShort : {Number : Type 0} → ℕ → Option Field → Json Number → Type 0
IsShort today none j = Unit
IsShort today (some f) j = ShortAs today f.type j

module _ (world : World) (today : ℕ) (range : IsInRange today) where
  open world use {Number}

  window_bounds :
      (n : ℤ) → (leb_ℤ (pos 1) n && leb_ℤ n max_days) ≡ true → (pos 1 ≤ℤ n) × (n ≤ℤ pos 3650)
  window_bounds n h = ground arith

  ahead_some : (n : ℤ) → pos 1 ≤ℤ n → n ≤ℤ pos 3650 → is_some (date_at (pos today +ℤ n)) ≡ true
  ahead_some n h k =
      date_at_some (pos today +ℤ n) (ground (arith, +ℤ_parts (pos today) n, range.early))
        (ground (arith, +ℤ_parts (pos today) n, range.late))

  ago_some :
      (n : ℤ) → pos 0 ≤ℤ n → ltb_ℤ n (pos today) ≡ true → is_some (date_at (pos today -ℤ n)) ≡ true
  ago_some n h k =
      date_at_some (pos today -ℤ n) (ground (arith, -ℤ_parts (pos today) n))
        (ground (arith, -ℤ_parts (pos today) n, range.late))

  pub window_ahead : (j : Json Number) → is_window j ≡ true → is_some (ahead world today j) ≡ true
  unfolding is_window ahead days_of
  window_ahead (integer n) h = ahead_some n (window_bounds n h).0 (window_bounds n h).1
  window_ahead null h = absurd (cc h)
  window_ahead (boolean b) h = absurd (cc h)
  window_ahead (real x) h = absurd (cc h)
  window_ahead (text t) h = absurd (cc h)
  window_ahead (array a) h = absurd (cc h)
  window_ahead (object o) h = absurd (cc h)

  pub window_ago : (j : Json Number) → is_window j ≡ true → is_some (ago world today j) ≡ true
  unfolding is_window ago days_of
  window_ago (integer n) h =
      ago_some n (ground (arith, (window_bounds n h).0))
        (ground (arith, (window_bounds n h).1, range.early))
  window_ago null h = absurd (cc h)
  window_ago (boolean b) h = absurd (cc h)
  window_ago (real x) h = absurd (cc h)
  window_ago (text t) h = absurd (cc h)
  window_ago (array a) h = absurd (cc h)
  window_ago (object o) h = absurd (cc h)

  days_ago :
      (j : Json Number)
      → is_days j ≡ true
      → Shows (is_short today) j
      → is_some (ago world today j) ≡ true
  unfolding is_days ago days_of Shows
  days_ago (integer (pos n)) h k = ago_some (pos n) (omega arith) k
  days_ago (integer (negsuc n)) h k = absurd (cc h)
  days_ago null h k = absurd (cc h)
  days_ago (boolean b) h k = absurd (cc h)
  days_ago (real x) h k = absurd (cc h)
  days_ago (text t) h k = absurd (cc h)
  days_ago (array a) h k = absurd (cc h)
  days_ago (object o) h k = absurd (cc h)

  day_some : (o : Option ℕ) (s : Scalar Number) → day_of world o ≡ ok s → is_some o ≡ true
  unfolding day_of
  day_some none s h = absurd (cc h)
  day_some (some d) s h = refl

  date_operand :
      (j : Json Number) (s : Scalar Number)
      → scalar_date world j ≡ ok s
      → is_some (read_date world j) ≡ true
  unfolding scalar_date read_date
  date_operand (text t) s h = day_some (world.from_iso t) s (
      then_second (require (world.is_dashed t) (Blocks.bad_value Blocks.not_a_date))
        (day_of world (world.from_iso t)) s h)
  date_operand null s h = absurd (cc h)
  date_operand (boolean b) s h = absurd (cc h)
  date_operand (integer n) s h = absurd (cc h)
  date_operand (real x) s h = absurd (cc h)
  date_operand (array a) s h = absurd (cc h)
  date_operand (object o) s h = absurd (cc h)

  scalar_read :
      (j : Json Number) (s : Scalar Number)
      → scalar_as world FieldType.date j ≡ ok s
      → is_some (read_date world j) ≡ true
  unfolding scalar_as
  scalar_read j s h = date_operand j s h

  scalar_days :
      (j : Json Number) (s : Scalar Number)
      → scalar_as world FieldType.days j ≡ ok s
      → is_days j ≡ true
  unfolding scalar_as
  scalar_days j s h = held (is_days j) (Blocks.bad_value Blocks.not_whole_days) (
      (then_first (require (is_days j) (Blocks.bad_value Blocks.not_whole_days)) (ok (a_number j)) s
        h).1)

  pub typed_gt :
      (type : FieldType) (column : Column) (json : Bool) (j : Json Number) (s : Scalar Number)
      → scalar_as world type j ≡ ok s
      → ShortAs today type j
      → is_some (typed world type column today json gt j) ≡ true
  unfolding typed value_q days_q operand
  typed_gt FieldType.days column json j s h k =
      rw (its_value (ago world today j) (days_ago j (scalar_days j s h) k)).1 refl
  typed_gt FieldType.date column json j s h k =
      rw (its_value (read_date world j) (scalar_read j s h)).1 refl
  typed_gt type column json j s h k = refl

  pub typed_lt :
      (type : FieldType) (column : Column) (json : Bool) (j : Json Number) (s : Scalar Number)
      → scalar_as world type j ≡ ok s
      → ShortAs today type j
      → is_some (typed world type column today json lt j) ≡ true
  unfolding typed value_q days_q operand
  typed_lt FieldType.days column json j s h k =
      rw (its_value (ago world today j) (days_ago j (scalar_days j s h) k)).1 refl
  typed_lt FieldType.date column json j s h k =
      rw (its_value (read_date world j) (scalar_read j s h)).1 refl
  typed_lt type column json j s h k = refl

  pub two_scalars :
      (type : FieldType) (a b : Json Number)
      → check_between world type (array (item a (item b no_items))) ≡ ok tt
      → ((s : Scalar Number) × (scalar_as world type a ≡ ok s))
        × ((s : Scalar Number) × (scalar_as world type b ≡ ok s))
  unfolding check_between
  two_scalars type a b h =
      let (low, (p, rest)) = bound (scalar_as world type a) _ tt h in ((low, p), after low rest)
    where
      after :
          (low : Scalar Number)
          → Blocks.◌>>=◌ (scalar_as world type b) (λ high.
            require (not (is_above world low high)) (Blocks.bad_value Blocks.wrong_order))
            ≡ ok tt
          → (s : Scalar Number) × (scalar_as world type b ≡ ok s)
      after low rest = let (high, (q, last)) = bound (scalar_as world type b) _ tt rest in (high, q)

  pub typed_pair :
      (type : FieldType) (column : Column) (json : Bool) (a b : Json Number) (s t : Scalar Number)
      → scalar_as world type a ≡ ok s
      → scalar_as world type b ≡ ok t
      → ShortAs today type (array (item a (item b no_items)))
      → is_some (typed world type column today json between (array (item a (item b no_items))))
        ≡ true
  unfolding typed value_q days_q operand iterate list_of pair_of map_each Shows
  typed_pair FieldType.days column json a b s t g h k =
      rw
        (
          (its_value (ago world today a) (days_ago a (scalar_days a s g) k.0)).1,
          (its_value (ago world today b) (days_ago b (scalar_days b t h) k.1.0)).1,
        )
        refl
  typed_pair FieldType.date column json a b s t g h k =
      rw
        (
          (its_value (read_date world a) (scalar_read a s g)).1,
          (its_value (read_date world b) (scalar_read b t h)).1,
        )
        refl
  typed_pair type column json a b s t g h k = refl
