-- ===== src/Churn/Tests.antt =====
-- One customer's risk.
use revenact_backend.Prelude.{◌≡◌, ◌≤◌, some}
use revenact_backend.Churn.{poor, onboarding, Customer, risk_of_loss, sum_points}
use revenact_backend.Churn.Risk.{risk_of_loss_uncapped}

abbrev customer : Customer
customer = record {
  health_category = poor;
  csm_pulse_score = some 5;
  ai_pulse_value = some 2;
  lifecycle_stage = onboarding;
}

risk_of_loss_uncapped_example :
    let (risk, factors) = risk_of_loss customer (some 90) in
    (risk ≡ sum_points factors) × (5 ≤ risk) × (risk ≤ 75)
risk_of_loss_uncapped_example = risk_of_loss_uncapped customer (some 90)
