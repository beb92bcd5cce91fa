-- ===== src/Triage.antt =====
-- services/customers/triage.py: the score that orders the attention list. Dates are day numbers; the
-- pulses are scores from one up.
pub mod Score
mod Tests
use revenact_backend.Prelude.{
  ℕ, zero, suc, ◌+◌, ◌-◌, ◌*◌, Bool, true, false, Option, none, some, List, [], ◌∷◌, ◌++◌, ltb, leb,
  length, drop, if◌then◌else◌,
}
use revenact_backend.Prelude.Int.{ℤ, pos, ◌-ℤ◌, leb_ℤ}

-- A health category; any other text has no severity.
pub data Grade : Type 0 where
  good average poor other : Grade

-- What a factor's label names.
pub data Label : Type 0 where
  health : Grade → Label
  pulse_below : ℕ → Label
  renews_in : ℤ → Label
  fell : Grade → Grade → Label

pub record Factor : Type 0 where
  pub label : Label
  pub points : ℕ

pub data Direction : Type 0 where
  unknown declining improving flat : Direction

pub record Triage : Type 0 where
  pub score : ℕ
  pub factors : List Factor
  pub direction : Direction
  pub days_to_renewal : Option ℤ

abbrev pub severity : Grade → ℕ
severity good = 0
severity average = 1
severity poor = 3
severity other = 0

-- `SEVERITY.get(health_category, 0)` where the category may be missing.
abbrev pub severity_of : Option Grade → ℕ
severity_of none = 0
severity_of (some g) = severity g

unfoldable pub health_factors : Option Grade → List Factor
health_factors none = []
health_factors (some g) =
    if ltb 0 (severity g) then record { label = health g; points = severity g * 22 } ∷ [] else []

-- Only a colder AI read counts, and only where both sides are rated.
unfoldable pub pulse_factors : Option ℕ → Option ℕ → List Factor
pulse_factors (some csm) (some ai) =
    if ltb ai csm
    then record { label = pulse_below (csm - ai); points = (csm - ai) * 11 } ∷ []
    else []
pulse_factors _ _ = []

unfoldable pub days_until : Option ℕ → ℕ → Option ℤ
days_until none today = none
days_until (some renewal) today = some (pos renewal -ℤ pos today)

unfoldable pub renewal_factors : Option ℤ → List Factor
renewal_factors none = []
renewal_factors (some days) =
    if leb_ℤ days (pos 90)
    then record { label = renews_in days; points = 18 } ∷ []
    else if leb_ℤ days (pos 180)
    then record { label = renews_in days; points = 8 } ∷ []
    else []

-- `history[-3:]`
unfoldable pub trail_of : List Grade → List Grade
trail_of history = drop (length history - 3) history

-- The last of a list that is not empty.
unfoldable pub last_of : Grade → List Grade → Grade
last_of g [] = g
last_of g (h ∷ rest) = last_of h rest

-- The first and the last grade of a trail of two or more.
unfoldable pub ends_of : List Grade → Option (Grade × Grade)
unfolding last_of
ends_of [] = none
ends_of (g ∷ []) = none
ends_of (g ∷ h ∷ rest) = some (g, last_of h rest)

unfoldable pub direction_of : Option (Grade × Grade) → Direction
direction_of none = unknown
direction_of (some (first, last)) =
    if ltb (severity first) (severity last)
    then declining
    else if ltb (severity last) (severity first)
    then improving
    else flat

unfoldable pub decline_factors : Option (Grade × Grade) → List Factor
decline_factors none = []
decline_factors (some (first, last)) =
    if ltb (severity first) (severity last)
    then record { label = fell first last; points = (severity last - severity first) * 9 } ∷ []
    else []

-- `sort(key=points, reverse=True)`, which keeps the order of equal keys.
unfoldable pub insert_factor : Factor → List Factor → List Factor
insert_factor f [] = f ∷ []
insert_factor f (g ∷ rest) =
    let later = insert_factor f rest in if leb g.points f.points then f ∷ g ∷ rest else g ∷ later

unfoldable pub sort_factors : List Factor → List Factor
unfolding insert_factor
sort_factors [] = []
sort_factors (f ∷ rest) = insert_factor f (sort_factors rest)

unfoldable pub sum_points : List Factor → ℕ
sum_points [] = 0
sum_points (f ∷ rest) = f.points + sum_points rest

-- The factors in the order in which they are found.
unfoldable pub found_factors :
    Option Grade → Option ℕ → Option ℕ → Option ℕ → List Grade → ℕ → List Factor
found_factors category csm ai renewal history today =
    health_factors category
    ++ (pulse_factors csm ai
        ++ (renewal_factors (days_until renewal today)
            ++ decline_factors (ends_of (trail_of history))))

unfoldable pub triage : Option Grade → Option ℕ → Option ℕ → Option ℕ → List Grade → ℕ → Triage
unfolding found_factors sort_factors sum_points
triage category csm ai renewal history today =
    let factors = sort_factors (found_factors category csm ai renewal history today) in
    record {
      score = sum_points factors;
      factors = factors;
      direction = direction_of (ends_of (trail_of history));
      days_to_renewal = days_until renewal today;
    }
