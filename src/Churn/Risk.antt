-- ===== src/Churn/Risk.antt =====
-- The risk is explained by its factors, and rises with what makes a renewal colder.
use revenact_backend.Prelude.{ℕ, ◌+◌, ◌≤◌, ◌≡◌, Option, none, some, List, [], ◌∷◌, ◌++◌, arith}
use revenact_backend.Churn.{
  Health, good, average, poor, unrated, Factor, Customer, Stage, base_risk, contact_factors,
  gap_factors, stage_factors, factors_of, sum_points, risk_of_loss,
}

sum_points-append : (fs gs : List Factor) → sum_points (fs ++ gs) ≡ sum_points fs + sum_points gs
unfolding sum_points
sum_points-append [] gs = omega arith
sum_points-append (f ∷ fs) gs = omega (arith, sum_points-append fs gs)

contact_points : (d : Option ℕ) → sum_points (contact_factors d) ≤ 10
unfolding sum_points contact_factors
contact_points none = omega arith
contact_points (some d) = ground arith

gap_points : (csm ai : Option ℕ) → sum_points (gap_factors csm ai) ≤ 10
unfolding sum_points gap_factors
gap_points none ai = omega arith
gap_points (some csm) none = omega arith
gap_points (some csm) (some ai) = ground arith

stage_points : (s : Stage) → sum_points (stage_factors s) ≤ 5
unfolding sum_points stage_factors
stage_points s = ground arith

base_bounds : (h : Health) → (5 ≤ base_risk h) × (base_risk h ≤ 50)
unfolding base_risk
base_bounds good = omega arith
base_bounds average = omega arith
base_bounds poor = omega arith
base_bounds unrated = omega arith

-- The risk of every customer is between 5 and 75 hundredths and is the sum of the points of its
-- factors: no customer reaches the cap of 90.
pub risk_of_loss_uncapped :
    (customer : Customer) (days : Option ℕ)
    → let (risk, factors) = risk_of_loss customer days in
      (risk ≡ sum_points factors) × (5 ≤ risk) × (risk ≤ 75)
unfolding risk_of_loss
risk_of_loss_uncapped customer days = omega (arith, total)
  where
    total :
        (5 ≤ sum_points (factors_of customer days)) × (sum_points (factors_of customer days) ≤ 75)
    total =
        unfold factors_of sum_points in
        omega (
          arith,
          base_bounds customer.health_category,
          sum_points-append (contact_factors days) (
              gap_factors customer.csm_pulse_score customer.ai_pulse_value
              ++ stage_factors customer.lifecycle_stage),
          sum_points-append (gap_factors customer.csm_pulse_score customer.ai_pulse_value)
              (stage_factors customer.lifecycle_stage),
          contact_points days,
          gap_points customer.csm_pulse_score customer.ai_pulse_value,
          stage_points customer.lifecycle_stage,
        )
