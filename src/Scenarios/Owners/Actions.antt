-- ===== src/Scenarios/Owners/Actions.antt =====
-- Each action keeps the owner in the organisation.
use revenact_backend.Prelude.{
  String, ◌≡◌, refl, Bool, true, false, Option, none, some, inl, inr, str_eq, ◌==◌, if◌then◌else◌,
  member, is_some, Bool-cases, Option-cases,
}
use revenact_backend.Scenarios.Rows.{State, Data, User, get, get_or}
use revenact_backend.Scenarios.Conditions.{World}
use revenact_backend.Scenarios.Handlers.{
  Handled, raised, stages, find_member, member_named, send_email, create_task, set_attribute,
  churn_entity, wait, assign_to, assign_owner, notify, notify_person, recipient, handle,
}
use revenact_backend.Scenarios.Owners.{
  save_owner-IsStored, save_stage-IsStored, save_churn-IsStored, IsSafe, IsSafeHandled, IsFound,
  find_member_self, least_loaded-IsFound,
}

module _ (world : World) where
  assign_to-IsSafe :
      (s : State) (u : User)
      → IsSafe s
      → is_some (find_member s.customer.organisation u.id s.users) ≡ true
      → IsSafeHandled (assign_to world s u)
  unfolding assign_to
  assign_to-IsSafe s u v found =
      elim (Bool-cases (elim (s.customer.owner) [ none ↦ false | some pk ↦ pk == u.id ])) [
        | inl same ↦ rw same v
        | inr other ↦ rw other (record {
          owned = found;
          staged = v.staged;
          stored = save_owner-IsStored s.customer s.users u.id s.customers found v.stored;
        })
      ]

  member_named-IsFound :
      (s : State) (named : String) {u : User}
      → member_named world s named ≡ some (some u)
      → is_some (find_member s.customer.organisation u.id s.users) ≡ true
  unfolding member_named
  member_named-IsFound s named {u} e = elim (Bool-cases (str_eq named "")) [
    | inl empty ↦ cc (rw empty at e)
    | inr filled ↦ elim (Option-cases (world.key named)) [
      | inl bad ↦ cc (rw (filled, bad) at e)
      | inr (pk, good) ↦
          let found : find_member s.customer.organisation pk s.users ≡ some u =
            cc (rw (filled, good) at e) in
          find_member_self s.customer.organisation pk s.users found
    ]
  ]

  assign_owner-IsSafe :
      (s : State) (config : Data) → IsSafe s → IsSafeHandled (assign_owner world s config)
  unfolding assign_owner
  assign_owner-IsSafe s config v =
      elim (Bool-cases (str_eq (get_or "assignRule" "" config) "least_loaded")) [
        | inl by_load ↦ rw by_load (
            chosen _ (
              least_loaded-IsFound s.customer.organisation (get_or "assignFunction" "" config)
                s.customers s.users))
        | inr by_name ↦
            rw by_name (elim (Option-cases (member_named world s (get_or "assignTo" "" config))) [
              | inl bad ↦ rw bad tt
              | inr (none, nobody) ↦ rw nobody tt
              | inr (some u, found) ↦
                  rw found (assign_to-IsSafe s u v (member_named-IsFound s _ found))
            ])
      ]
    where
      chosen :
          (best : Option User)
          → IsFound s.customer.organisation s.users best
          → IsSafeHandled (elim best [
            | none ↦ raised "Nobody in that function to assign to."
            | some person ↦ assign_to world s person
          ])
      chosen none h = tt
      chosen (some u) h = assign_to-IsSafe s u v h

  notify-IsSafe : (s : State) (config : Data) → IsSafe s → IsSafeHandled (notify world s config)
  unfolding notify notify_person
  notify-IsSafe s config v = elim (Option-cases (recipient world s config)) [
    | inl bad ↦ rw (bad, IsSafeHandled) tt
    | inr (none, nobody) ↦ rw (nobody, IsSafeHandled) tt
    | inr (some u, found) ↦
        rw (found, IsSafeHandled) (record { owned = v.owned; staged = v.staged; stored = v.stored })
  ]

  send_email-IsSafe :
      (s : State) (config : Data) → IsSafe s → IsSafeHandled (send_email world s config)
  unfolding send_email
  send_email-IsSafe s config v = elim (Bool-cases (str_eq s.customer.email "")) [
    | inl missing ↦ rw missing tt
    | inr known ↦ elim (Option-cases (world.delivered s.customer.email)) [
      | inl sent ↦
          rw (known, sent) (record { owned = v.owned; staged = v.staged; stored = v.stored })
      | inr (error, lost) ↦ rw (known, lost) tt
    ]
  ]

  set_attribute-IsSafe :
      (s : State) (config : Data) → IsSafe s → IsSafeHandled (set_attribute world s config)
  unfolding set_attribute
  set_attribute-IsSafe s config v = elim (Option-cases (get "attributeValue" config)) [
    | inl missing ↦ rw (missing, IsSafeHandled) tt
    | inr (value, given) ↦ elim (Bool-cases (member value stages)) [
      | inl known ↦
          rw (given, IsSafeHandled, known)
            (record {
              owned = v.owned;
              staged = known;
              stored = save_stage-IsStored s.customer s.users value s.customers known v.stored;
            })
      | inr unknown ↦ rw (given, IsSafeHandled, unknown) tt
    ]
  ]

  churn_entity-IsSafe :
      (s : State) (config : Data) → IsSafe s → IsSafeHandled (churn_entity world s config)
  unfolding churn_entity member
  churn_entity-IsSafe s config v = record {
    owned = v.owned;
    staged = refl;
    stored = save_churn-IsStored s.customer s.users s.today s.customers v.stored;
  }

  create_task-IsSafe :
      (s : State) (config : Data) → IsSafe s → IsSafeHandled (create_task world s config)
  unfolding create_task
  create_task-IsSafe s config v = record { owned = v.owned; staged = v.staged; stored = v.stored }

  abbrev pub IsSafeAnswer : Option Handled → Type 0
  IsSafeAnswer none = Unit
  IsSafeAnswer (some h) = IsSafeHandled h

  choose :
      (c : Bool) (x y : Option Handled)
      → IsSafeAnswer x
      → IsSafeAnswer y
      → IsSafeAnswer (if c then x else y)
  choose true x y hx hy = hx
  choose false x y hx hy = hy

  pub handle-IsSafe :
      (action : String) (s : State) (config : Data)
      → IsSafe s
      → IsSafeAnswer (handle world action s config)
  unfolding handle wait
  handle-IsSafe action s config v =
      choose (str_eq action "Send Email") _ _ (send_email-IsSafe s config v) (
        choose (str_eq action "Create Task") _ _ (create_task-IsSafe s config v) (
          choose (str_eq action "Set Attribute") _ _ (set_attribute-IsSafe s config v) (
            choose (str_eq action "Churn Entity") _ _ (churn_entity-IsSafe s config v) (
              choose (str_eq action "Assign Owner") _ _ (assign_owner-IsSafe s config v) (
                choose (str_eq action "Notify") _ _ (notify-IsSafe s config v) (
                  choose (str_eq action "Wait") (some (wait world s config)) _ v (
                    choose (str_eq action "Conditional Wait") (some (wait world s config)) none v
                      tt)))))))
