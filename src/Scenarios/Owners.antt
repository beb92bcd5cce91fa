-- ===== src/Scenarios/Owners.antt =====
-- Whom a run assigns, and the stages that it sets.
pub mod Actions
pub mod Runs
use Prim.Native.String.{◌++◌}
use revenact_backend.Prelude.{
  ℕ, zero, suc, ◌+◌, String, ◌≡◌, ◌≢◌, ◌⊎◌, All, map, refl, sym, ap, subst, ◌∙◌, Bool, true, false,
  not, ◌&&◌, Option, none, some, List, [], ◌∷◌, arith, inl, inr, str_eq, str_eq_iff, ◌==◌, ==_iff,
  if◌then◌else◌, member, is_some, Bool-cases, Option-cases,
}
use revenact_backend.Scenarios.Rows.{State, Data, Customer, User, Node, Scenario, Row, get, get_or}
use revenact_backend.Scenarios.Conditions.{World, evaluate_condition}
use revenact_backend.Scenarios.Handlers.{
  save_owner, save_stage, save_churn, comes_before, Handled, done, raised, stages, is_candidate,
  lighter, least_loaded, find_member, member_named, send_email, create_task, set_attribute,
  churn_entity, wait, assign_to, assign_owner, notify, notify_person, recipient, handle,
}
use revenact_backend.Scenarios.{
  Walked, finished, escaped, Step, pass, stop, log, escape, Run, returned, raises, prepend,
  count_ids, find_entry, is_entry, condition_step, filter_step, handled_step, action_step, step,
  proceed, walk, close_run, run_scenario,
}

-- The owner, if there is one, is of the organisation.
abbrev pub belongs : ℕ → Option ℕ → List User → Bool
belongs organisation none users = true
belongs organisation (some pk) users = is_some (find_member organisation pk users)

-- A customer that is on record is owned by nobody or by a person of its organisation, and its stage is
-- one of the stages; the row of the one that the run holds has its organisation, owner and stage.
abbrev pub IsStored : Customer → List User → Customer → Type 0
IsStored held users row =
    (belongs row.organisation row.owner users ≡ true)
    × (member row.lifecycle_stage stages ≡ true)
    × ((row.id ≢ held.id)
        ⊎ ((row.organisation ≡ held.organisation)
            × (row.owner ≡ held.owner)
            × (row.lifecycle_stage ≡ held.lifecycle_stage)))

-- The customer's owner is of its organisation, its stage is one of the stages, and so it is on record,
-- for it and for every other customer.
pub record IsSafe (s : State) : Type 0 where
  pub owned : belongs s.customer.organisation s.customer.owner s.users ≡ true
  pub staged : member s.customer.lifecycle_stage stages ≡ true
  pub stored : All (λ row. IsStored s.customer s.users row) s.customers

All-map-save :
    (P Q : Customer → Type 0) (save : Customer → Customer) (rows : List Customer)
    → ((row : Customer) → P row → Q (save row))
    → All P rows
    → All Q (map save rows)
All-map-save P Q save [] each h = tt
All-map-save P Q save (row ∷ rows) each h = (each row h.0, All-map-save P Q save rows each h.1)

module _ (held : Customer) (users : List User) where
  -- The row of the customer that is held.
  own_row :
      (row : Customer)
      → IsStored held users row
      → (row.id == held.id) ≡ true
      → (row.organisation ≡ held.organisation)
        × (row.owner ≡ held.owner)
        × (row.lifecycle_stage ≡ held.lifecycle_stage)
  own_row row h own = either h.2
    where
      either :
          (row.id ≢ held.id)
            ⊎ ((row.organisation ≡ held.organisation)
                × (row.owner ≡ held.owner)
                × (row.lifecycle_stage ≡ held.lifecycle_stage))
          → (row.organisation ≡ held.organisation)
            × (row.owner ≡ held.owner)
            × (row.lifecycle_stage ≡ held.lifecycle_stage)
      either (inl other) = absurd (other ((==_iff row.id held.id).0 own))
      either (inr same) = same

  other_row : (row : Customer) → (row.id == held.id) ≡ false → row.id ≢ held.id
  other_row row h = ground arith

  pub save_owner-IsStored :
      (owner : ℕ) (rows : List Customer)
      → belongs held.organisation (some owner) users ≡ true
      → All (IsStored held users) rows
      → All (IsStored (record held { owner = some owner }) users) (map (save_owner owner held) rows)
  unfolding save_owner
  save_owner-IsStored owner rows found =
      All-map-save (IsStored held users) (IsStored (record held { owner = some owner }) users)
        (save_owner owner held) rows each
    where
      each :
          (row : Customer)
          → IsStored held users row
          → IsStored (record held { owner = some owner }) users (save_owner owner held row)
      each row h = elim (Bool-cases (row.id == held.id)) [
        | inl own ↦
            let same = own_row row h own in
            let here : belongs row.organisation (some owner) users ≡ true = rw (same.0) found in
            rw own (here, h.1, inr (same.0, refl, same.2))
        | inr other ↦ rw other (h.0, h.1, inl (other_row row other))
      ]

  pub save_stage-IsStored :
      (stage : String) (rows : List Customer)
      → member stage stages ≡ true
      → All (IsStored held users) rows
      → All
          (IsStored (record held { lifecycle_stage = stage }) users)
          (map (save_stage stage held) rows)
  unfolding save_stage
  save_stage-IsStored stage rows known =
      All-map-save (IsStored held users) (IsStored (record held { lifecycle_stage = stage }) users)
        (save_stage stage held) rows each
    where
      each :
          (row : Customer)
          → IsStored held users row
          → IsStored (record held { lifecycle_stage = stage }) users (save_stage stage held row)
      each row h = elim (Bool-cases (row.id == held.id)) [
        | inl own ↦ let same = own_row row h own in rw own (h.0, known, inr (same.0, same.1, refl))
        | inr other ↦ rw other (h.0, h.1, inl (other_row row other))
      ]

  pub save_churn-IsStored :
      (today : ℕ) (rows : List Customer)
      → All (IsStored held users) rows
      → All
          (IsStored (record held { lifecycle_stage = "churn"; churn_date = some today }) users)
          (map (save_churn today held) rows)
  unfolding save_churn member
  save_churn-IsStored today rows =
      All-map-save (IsStored held users)
        (IsStored (record held { lifecycle_stage = "churn"; churn_date = some today }) users)
        (save_churn today held) rows each
    where
      each :
          (row : Customer)
          → IsStored held users row
          → IsStored
              (record held { lifecycle_stage = "churn"; churn_date = some today })
              users
              (save_churn today held row)
      each row h = elim (Bool-cases (row.id == held.id)) [
        | inl own ↦ let same = own_row row h own in rw own (h.0, refl, inr (same.0, same.1, refl))
        | inr other ↦ rw other (h.0, h.1, inl (other_row row other))
      ]

abbrev pub IsSafeHandled : Handled → Type 0
IsSafeHandled (done detail s) = IsSafe s
IsSafeHandled (raised error) = Unit

abbrev pub IsSafeStep : Step → Type 0
IsSafeStep (log row failed_here s next) = IsSafe s
IsSafeStep _ = Unit

abbrev pub IsSafeWalk : Walked → Type 0
IsSafeWalk (finished rows any_failed s) = IsSafe s
IsSafeWalk (escaped s) = IsSafe s

abbrev pub IsSafeRun : Run → Type 0
IsSafeRun (returned rows status s) = IsSafe s
IsSafeRun (raises s) = IsSafe s

pub find_member_self :
    (organisation pk : ℕ) (users : List User) {u : User}
    → find_member organisation pk users ≡ some u
    → is_some (find_member organisation u.id users) ≡ true
unfolding find_member
find_member_self organisation pk [] e = cc e
find_member_self organisation pk (v ∷ rest) {u} e =
    elim (Bool-cases (v.id == pk && v.organisation == organisation)) [
      | inl here ↦
          let same : v ≡ u = cc (rw here at e) in
          subst
            (λ (x : User).
              is_some (
                if v.id == x.id && v.organisation == organisation
                then some v
                else find_member organisation x.id rest)
              ≡ true)
            same (ground arith)
      | inr later ↦
          let found = find_member_self organisation pk rest {u = u} (rw later at e) in
          elim (Bool-cases (v.id == u.id && v.organisation == organisation)) [
            | inl own ↦ rw own refl
            | inr other ↦ rw other found
          ]
    ]

-- The person whom the least load names is of the organisation.
abbrev pub IsFound : ℕ → List User → Option User → Type 0
IsFound organisation users none = Unit
IsFound organisation users (some u) = is_some (find_member organisation u.id users) ≡ true

IsFound-later :
    (organisation : ℕ) (v : User) (users : List User) (best : Option User)
    → IsFound organisation users best
    → IsFound organisation (v ∷ users) best
unfolding find_member
IsFound-later organisation v users none h = tt
IsFound-later organisation v users (some u) h =
    elim (Bool-cases (v.id == u.id && v.organisation == organisation)) [
      | inl own ↦ rw own refl
      | inr other ↦ rw other h
    ]

lighter_either :
    (customers : List Customer) (u : User) (best : Option User)
    → (P : Option User → Type 0) → P (some u)
    → P best
    → P (some (lighter customers u best))
unfolding lighter
lighter_either customers u none P here later = here
lighter_either customers u (some v) P here later = elim (Bool-cases (comes_before customers v u)) [
  | inl before ↦ rw before later
  | inr after ↦ rw after here
]

pub least_loaded-IsFound :
    (organisation : ℕ) (function : String) (customers : List Customer) (users : List User)
    → IsFound organisation users (least_loaded organisation function customers users)
unfolding least_loaded
least_loaded-IsFound organisation function customers [] = tt
least_loaded-IsFound organisation function customers (u ∷ rest) =
    let best = least_loaded organisation function customers rest in
    let later =
      IsFound-later organisation u rest best
        (least_loaded-IsFound organisation function customers rest) in
    elim (Bool-cases (is_candidate organisation function u)) [
      | inr passed_over ↦ rw passed_over later
      | inl chosen ↦
          rw chosen
            (lighter_either customers u best (IsFound organisation (u ∷ rest)) (own chosen) later)
    ]
  where
    own :
        is_candidate organisation function u ≡ true
        → is_some (find_member organisation u.id (u ∷ rest)) ≡ true
    own c = unfold is_candidate find_member in ground (arith, c)
