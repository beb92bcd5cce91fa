-- ===== src/Churn.antt =====
-- services/customers/churn.py: how likely a renewal is to be lost. Points are hundredths, in which
-- every rate of the file is a whole number; the code's rounding to four places leaves these values.
pub mod Risk
mod Tests
use revenact_backend.Prelude.{
  ℕ, ◌+◌, ◌-◌, Bool, true, false, Option, none, some, List, [], ◌∷◌, ◌++◌, ltb, leb, min,
  if◌then◌else◌,
}

pub data Health : Type 0 where
  good average poor unrated : Health

pub data Stage : Type 0 where
  onboarding kickoff adoption live renewal churn expansion other : Stage

-- What a factor's label names.
pub data Label : Type 0 where
  health_label : Health → Label
  no_contact : ℕ → Label
  pulses_disagree : Label
  still_in : Stage → Label

pub record Factor : Type 0 where
  pub label : Label
  pub points : ℕ

-- What the rule reads of a customer.
pub record Customer : Type 0 where
  pub health_category : Health
  pub csm_pulse_score : Option ℕ
  pub ai_pulse_value : Option ℕ
  pub lifecycle_stage : Stage

-- `BASE_RISK.get(health_category, 0.25)`
unfoldable pub base_risk : Health → ℕ
base_risk good = 5
base_risk average = 25
base_risk poor = 50
base_risk unrated = 25

abbrev pub cold_contact : ℕ
cold_contact = 10

abbrev pub pulse_disagreement : ℕ
pulse_disagreement = 10

abbrev pub not_embedded : ℕ
not_embedded = 5

abbrev pub max_risk : ℕ
max_risk = 90

abbrev pub contact_cold_days : ℕ
contact_cold_days = 60

abbrev pub pulse_gap_threshold : ℕ
pulse_gap_threshold = 2

-- `NOT_EMBEDDED_STAGES`
unfoldable pub is_not_embedded : Stage → Bool
is_not_embedded onboarding = true
is_not_embedded kickoff = true
is_not_embedded _ = false

unfoldable pub contact_factors : Option ℕ → List Factor
contact_factors none = []
contact_factors (some days) =
    if ltb contact_cold_days days
    then record { label = no_contact days; points = cold_contact } ∷ []
    else []

-- `abs(csm - ai) >= PULSE_GAP_THRESHOLD`
unfoldable pub gap_factors : Option ℕ → Option ℕ → List Factor
gap_factors (some csm) (some ai) =
    if leb pulse_gap_threshold ((csm - ai) + (ai - csm))
    then record { label = pulses_disagree; points = pulse_disagreement } ∷ []
    else []
gap_factors _ _ = []

unfoldable pub stage_factors : Stage → List Factor
unfolding is_not_embedded
stage_factors stage =
    if is_not_embedded stage
    then record { label = still_in stage; points = not_embedded } ∷ []
    else []

unfoldable pub factors_of : Customer → Option ℕ → List Factor
unfolding base_risk contact_factors gap_factors stage_factors
factors_of customer days_since_touch =
    record {
      label = health_label customer.health_category;
      points = base_risk customer.health_category;
    }
    ∷ (contact_factors days_since_touch
        ++ (gap_factors customer.csm_pulse_score customer.ai_pulse_value
            ++ stage_factors customer.lifecycle_stage))

unfoldable pub sum_points : List Factor → ℕ
sum_points [] = 0
sum_points (f ∷ rest) = f.points + sum_points rest

unfoldable pub risk_of_loss : Customer → Option ℕ → ℕ × List Factor
unfolding factors_of sum_points
risk_of_loss customer days_since_touch =
    let factors = factors_of customer days_since_touch in
    (min max_risk (sum_points factors), factors)
