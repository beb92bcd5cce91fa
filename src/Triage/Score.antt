-- ===== src/Triage/Score.antt =====
-- The score as a sum of four independent parts, and the order of its factors.
use revenact_backend.Prelude.{
  ℕ, ◌+◌, ◌-◌, ◌*◌, ◌≡◌, refl, ◌∙◌, Option, none, some, List, [], ◌∷◌, ◌++◌, arith, if◌then◌else◌,
}
use revenact_backend.Prelude.Int.{ℤ, pos, leb_ℤ}
use revenact_backend.Triage.{
  Grade, Factor, severity, severity_of, health_factors, pulse_factors, renewal_factors,
  decline_factors, days_until, trail_of, ends_of, insert_factor, sort_factors, sum_points,
  found_factors, triage,
}

sum_points-append : (fs gs : List Factor) → sum_points (fs ++ gs) ≡ sum_points fs + sum_points gs
unfolding sum_points
sum_points-append [] gs = omega arith
sum_points-append (f ∷ fs) gs = omega (arith, sum_points-append fs gs)

sum_points-insert_factor :
    (f : Factor) (fs : List Factor) → sum_points (insert_factor f fs) ≡ f.points + sum_points fs
unfolding sum_points insert_factor
sum_points-insert_factor f [] = refl
sum_points-insert_factor f (g ∷ fs) = ground (arith, sum_points-insert_factor f fs)

sum_points-sort_factors : (fs : List Factor) → sum_points (sort_factors fs) ≡ sum_points fs
unfolding sum_points sort_factors
sum_points-sort_factors [] = refl
sum_points-sort_factors (f ∷ fs) =
    omega (arith, sum_points-insert_factor f (sort_factors fs), sum_points-sort_factors fs)

-- The four parts, each by a rule of its own.
abbrev pub pulse_part : Option ℕ → Option ℕ → ℕ
pulse_part (some csm) (some ai) = 11 * (csm - ai)
pulse_part _ _ = 0

abbrev pub renewal_part : Option ℤ → ℕ
renewal_part none = 0
renewal_part (some days) = if leb_ℤ days (pos 90) then 18 else if leb_ℤ days (pos 180) then 8 else 0

abbrev pub decline_part : Option (Grade × Grade) → ℕ
decline_part none = 0
decline_part (some (first, last)) = 9 * (severity last - severity first)

health_points : (c : Option Grade) → sum_points (health_factors c) ≡ 22 * severity_of c
unfolding sum_points health_factors
health_points none = refl
health_points (some g) = ground arith

pulse_points : (csm ai : Option ℕ) → sum_points (pulse_factors csm ai) ≡ pulse_part csm ai
unfolding sum_points pulse_factors
pulse_points none ai = refl
pulse_points (some csm) none = refl
pulse_points (some csm) (some ai) = ground arith

renewal_points : (d : Option ℤ) → sum_points (renewal_factors d) ≡ renewal_part d
unfolding sum_points renewal_factors
renewal_points none = refl
renewal_points (some d) = ground arith

decline_points : (e : Option (Grade × Grade)) → sum_points (decline_factors e) ≡ decline_part e
unfolding sum_points decline_factors
decline_points none = refl
decline_points (some (first, last)) = ground arith

module _ (category : Option Grade) (csm ai renewal : Option ℕ) (history : List Grade)
    (today : ℕ) where
  -- The score is the sum of the four parts, whatever the order of the factors: 22 for each step of
  -- severity, 11 for each point by which the AI's pulse is below the CSM's, 18 or 8 for the renewal,
  -- and 9 for each step by which the trail ends worse than it began.
  pub score_parts :
      (triage category csm ai renewal history today).score
      ≡ 22 * severity_of category
        + pulse_part csm ai
        + renewal_part (days_until renewal today)
        + decline_part (ends_of (trail_of history))
  unfolding triage
  score_parts =
      sum_points-sort_factors (found_factors category csm ai renewal history today)
      ∙ unfold found_factors in
        omega (
          arith,
          sum_points-append (health_factors category) (
              pulse_factors csm ai
              ++ (renewal_factors (days_until renewal today)
                  ++ decline_factors (ends_of (trail_of history)))),
          sum_points-append (pulse_factors csm ai) (
              renewal_factors (days_until renewal today)
              ++ decline_factors (ends_of (trail_of history))),
          sum_points-append (renewal_factors (days_until renewal today))
              (decline_factors (ends_of (trail_of history))),
          health_points category,
          pulse_points csm ai,
          renewal_points (days_until renewal today),
          decline_points (ends_of (trail_of history)),
        )
