-- ===== src/Scenarios/Handlers.antt =====
-- The actions of services/scenarios/engine.py that do something.
use Prim.Native.String.{◌++◌}
use revenact_backend.Prelude.{
  ℕ, suc, String, Bool, true, false, not, ◌&&◌, Option, none, some, List, [], ◌∷◌, map, ltb, ◌==◌,
  str_eq, if◌then◌else◌, strip, member,
}
use revenact_backend.Scenarios.Rows.{Customer, User, State, Data, get, get_or}
use revenact_backend.Scenarios.Conditions.{World, find_user}

-- How a handler ends: the line for the log and what it left, or what it raised, with nothing written.
pub data Handled : Type 0 where
  done : String → State → Handled
  raised : String → Handled

-- `Customer.LifecycleStage.values`
abbrev pub stages : List String
stages =
    "onboarding" ∷ "kickoff" ∷ "adoption" ∷ "live" ∷ "renewal" ∷ "churn" ∷ "expansion" ∷ "other"
    ∷ []

-- `save(update_fields=...)` on the row of the customer.
unfoldable pub save_stage : String → Customer → Customer → Customer
save_stage stage held row =
    if row.id == held.id then record row { lifecycle_stage = stage } else row

unfoldable pub save_churn : ℕ → Customer → Customer → Customer
save_churn today held row =
    if row.id == held.id
    then record row { lifecycle_stage = "churn"; churn_date = some today }
    else row

unfoldable pub save_owner : ℕ → Customer → Customer → Customer
save_owner owner held row = if row.id == held.id then record row { owner = some owner } else row

-- How many customers that are not archived a person owns.
unfoldable pub load_of : User → List Customer → ℕ
load_of u [] = 0
load_of u (c ∷ rest) =
    let others = load_of u rest in
    if elim (c.owner) [ none ↦ false | some pk ↦ pk == u.id ] && not c.is_archived
    then suc others
    else others

-- The first by load, then by key.
unfoldable pub comes_before : List Customer → User → User → Bool
unfolding load_of
comes_before customers u v =
    if load_of u customers == load_of v customers
    then ltb u.id v.id
    else ltb (load_of u customers) (load_of v customers)

unfoldable pub lighter : List Customer → User → Option User → User
unfolding comes_before
lighter customers u none = u
lighter customers u (some v) = if comes_before customers v u then v else u

-- Active, of the organisation, and of the function if one is named.
unfoldable pub is_candidate : ℕ → String → User → Bool
is_candidate organisation function u =
    (u.organisation == organisation && u.is_active)
    && (if str_eq function "" then true else str_eq u.function function)

-- `_least_loaded`
unfoldable pub least_loaded : ℕ → String → List Customer → List User → Option User
unfolding lighter is_candidate
least_loaded organisation function customers [] = none
least_loaded organisation function customers (u ∷ rest) =
    let best = least_loaded organisation function customers rest in
    if is_candidate organisation function u then some (lighter customers u best) else best

unfoldable pub find_member : ℕ → ℕ → List User → Option User
find_member organisation pk [] = none
find_member organisation pk (u ∷ rest) =
    if u.id == pk && u.organisation == organisation
    then some u
    else find_member organisation pk rest

module _ (world : World) where
  open world use {show, key, bad_key, delivered}

  -- `_member`, on the text that the graph holds; none where the text is no key, which raises.
  unfoldable pub member_named : State → String → Option (Option User)
  unfolding find_member
  member_named s named = if str_eq named "" then some none else elim (key named) [
    | none ↦ none
    | some pk ↦ some (find_member s.customer.organisation pk s.users)
  ]

  unfoldable pub send_email : State → Data → Handled
  send_email s config =
      let c = s.customer in
      let subject = get_or "emailSubject" ("A message from " ++ c.organisation_name) config in
      let body = get_or "emailBody" "" config in
      if str_eq c.email ""
      then raised (c.name ++ " has no email on record.")
      else elim (delivered c.email) [
        | some error ↦ raised error
        | none ↦
            done ("Emailed " ++ c.email ++ ": \"" ++ subject ++ "\"") (record s {
              mails = record { to = c.email; subject = subject; body = body } ∷ s.mails;
            })
      ]

  unfoldable pub create_task : State → Data → Handled
  create_task s config =
      let title = get_or "taskTitle" "Follow up" config in
      done ("Created task \"" ++ title ++ "\"") (record s {
        tasks = record { customer = s.customer.id; title = title; due_date = s.today } ∷ s.tasks;
      })

  unfoldable pub set_attribute : State → Data → Handled
  set_attribute s config = elim (get "attributeValue" config) [
    | none ↦ raised "'None' isn't a valid lifecycle stage."
    | some value ↦
        if member value stages
        then done ("Set lifecycle_stage = " ++ value) (record s {
          customer = record s.customer { lifecycle_stage = value };
          customers = map (save_stage value s.customer) s.customers;
        })
        else raised ("'" ++ value ++ "' isn't a valid lifecycle stage.")
  ]

  unfoldable pub churn_entity : State → Data → Handled
  churn_entity s config = done "Marked as churned" (record s {
    customer = record s.customer { lifecycle_stage = "churn"; churn_date = some s.today };
    customers = map (save_churn s.today s.customer) s.customers;
  })

  unfoldable pub wait : State → Data → Handled
  wait s config = done "No task queue to wait on yet — continued immediately" s

  -- The end of `_handle_assign_owner`, for the person it names.
  unfoldable pub assign_to : State → User → Handled
  unfolding save_owner
  assign_to s person =
      let c = s.customer in
      if elim (c.owner) [ none ↦ false | some pk ↦ pk == person.id ]
      then done (person.name ++ " already owns this") s
      else done ("Assigned to " ++ person.name) (record s {
        customer = record c { owner = some person.id };
        customers = map (save_owner person.id c) s.customers;
        notifications =
            record {
              recipient = person.id;
              message = c.name ++ " was assigned to you by a scenario.";
              link = "/organizations/" ++ show c.id;
            }
            ∷ s.notifications;
      })

  unfoldable pub assign_owner : State → Data → Handled
  assign_owner s config =
      if str_eq (get_or "assignRule" "" config) "least_loaded"
      then elim (least_loaded s.customer.organisation (get_or "assignFunction" "" config)
          s.customers s.users) [
            | none ↦ raised "Nobody in that function to assign to."
            | some person ↦ assign_to s person
          ]
      else elim (member_named s (get_or "assignTo" "" config)) [
        | none ↦ raised (bad_key (get_or "assignTo" "" config))
        | some found ↦ elim found [
          | none ↦ raised "This scenario names nobody in your organisation to assign to."
          | some person ↦ assign_to s person
        ]
      ]

  unfoldable pub find_manager : State → Option User
  find_manager s = elim (s.customer.owner) [
    | none ↦ none
    | some pk ↦ elim (find_user pk s.users) [
      | none ↦ none
      | some owner ↦ elim (owner.reports_to) [ none ↦ none | some boss ↦ find_user boss s.users ]
    ]
  ]

  -- `_recipients`, which names one person at most; none where it raises.
  unfoldable pub recipient : State → Data → Option (Option User)
  unfolding find_manager
  recipient s config =
      let who = get_or "notifyWho" "owner" config in
      if str_eq who "owner"
      then some (elim (s.customer.owner) [ none ↦ none | some pk ↦ find_user pk s.users ])
      else if str_eq who "manager"
      then some (find_manager s)
      else member_named s (get_or "notifyUser" "" config)

  unfoldable pub notify_message : State → Data → String
  notify_message s config =
      let message = strip (get_or "notifyMessage" "" config) in
      if str_eq message "" then "A scenario flagged " ++ s.customer.name ++ "." else message

  unfoldable pub notify_person : State → Data → User → Handled
  unfolding notify_message
  notify_person s config person = done ("Notified " ++ person.name) (record s {
    notifications =
        record {
          recipient = person.id;
          message = s.customer.name ++ ": " ++ notify_message s config;
          link = "/organizations/" ++ show s.customer.id;
        }
        ∷ s.notifications;
  })

  unfoldable pub notify : State → Data → Handled
  notify s config = elim (recipient s config) [
    | none ↦ raised (bad_key (get_or "notifyUser" "" config))
    | some found ↦ elim found [
      | none ↦ raised "Nobody to notify."
      | some person ↦ notify_person s config person
    ]
  ]

  -- `ACTION_HANDLERS`: none for an action that has no handler.
  unfoldable pub handle : String → State → Data → Option Handled
  handle action s config =
      if str_eq action "Send Email"
      then some (send_email s config)
      else if str_eq action "Create Task"
      then some (create_task s config)
      else if str_eq action "Set Attribute"
      then some (set_attribute s config)
      else if str_eq action "Churn Entity"
      then some (churn_entity s config)
      else if str_eq action "Assign Owner"
      then some (assign_owner s config)
      else if str_eq action "Notify"
      then some (notify s config)
      else if str_eq action "Wait"
      then some (wait s config)
      else if str_eq action "Conditional Wait"
      then some (wait s config)
      else none
