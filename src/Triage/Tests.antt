-- ===== src/Triage/Tests.antt =====
-- One customer's triage.
use revenact_backend.Prelude.{◌≡◌, ◌+◌, ◌*◌, some, [], ◌∷◌}
use revenact_backend.Triage.{
  good, average, poor, severity_of, days_until, trail_of, ends_of, triage,
}
use revenact_backend.Triage.Score.{pulse_part, renewal_part, decline_part, score_parts}

score_parts_example :
    (triage (some poor) (some 4) (some 2) (some 190) (good ∷ average ∷ poor ∷ []) 100).score
    ≡ 22 * severity_of (some poor)
      + pulse_part (some 4) (some 2)
      + renewal_part (days_until (some 190) 100)
      + decline_part (ends_of (trail_of (good ∷ average ∷ poor ∷ [])))
score_parts_example =
    score_parts (some poor) (some 4) (some 2) (some 190) (good ∷ average ∷ poor ∷ []) 100
