-- ===== src/Scenarios/Tests.antt =====
-- A scenario of five nodes that asks, assigns and ends.
use revenact_backend.Prelude.{
  ℕ, String, ◌≡◌, refl, inr, true, false, none, some, [], ◌∷◌, arith, str_eq, ◌==◌, if◌then◌else◌,
  member, leb, ltb,
}
use revenact_backend.Scenarios.Rows.{
  absent, number, Customer, User, State, Node, Scenario, SavedScenario,
}
use revenact_backend.Scenarios.Conditions.{World}
use revenact_backend.Scenarios.{
  find_entry, is_entry, find_node, count_ids, run_scenario, close_run, walk,
}
use revenact_backend.Scenarios.Guard.{run_scenario_unguarded}
use revenact_backend.Scenarios.Owners.{IsSafeRun}
use revenact_backend.Scenarios.Owners.Runs.{run_scenario-IsSafe}

-- Decimals of few texts, where "NaN" compares with nothing.
abbrev world : World
world = record {
  Decimal = ℕ;
  decimal = λ t.
      if str_eq t "7"
      then some 7
      else if str_eq t "4"
      then some 4
      else if str_eq t "NaN"
      then some 1000
      else none;
  same = λ a b. a == b;
  less = λ a b. if leb 1000 a then none else if leb 1000 b then none else some (ltb a b);
  text_less = λ a b. false;
  lower = λ t. t;
  occurs = λ part whole. str_eq part whole;
  quote = λ t. "?";
  show = λ n. "1";
  key = λ t. if str_eq t "5" then some 5 else none;
  bad_key = λ t. "no key";
  semantic = λ c d. (false, "Nothing on record to match against.");
  delivered = λ to. none;
}

abbrev customer : Customer
customer = record {
  id = 1;
  name = "Acme";
  email = "ana@acme.io";
  organisation = 7;
  organisation_name = "Revenact";
  owner = none;
  lifecycle_stage = "live";
  churn_date = none;
  is_archived = false;
  health_score = number "4";
  nps_score = absent;
  arr = absent;
  renewal_days = absent;
  open_tickets = number "7";
  ai_attributes = [];
}

abbrev person : User
person = record {
  id = 5;
  name = "Maya";
  email = "maya@revenact.io";
  organisation = 7;
  is_active = true;
  function = "csm";
  reports_to = none;
}

abbrev state : State
state = record {
  customer = customer;
  customers = customer ∷ [];
  users = person ∷ [];
  tasks = [];
  mails = [];
  notifications = [];
  today = 100;
}

abbrev start : Node
start = record { id = "a"; kind = some "entry"; config = some [] }

abbrev scenario : Scenario
scenario = record {
  nodes =
      start
      ∷ record {
        id = "b";
        kind = none;
        config = some (
            ("action", "Condition")
            ∷ ("conditionAttribute", "health_score")
            ∷ ("conditionOperator", "less_than")
            ∷ ("conditionValue", "7")
            ∷ []);
      }
      ∷ record {
        id = "c";
        kind = none;
        config = some (("action", "Assign Owner") ∷ ("assignRule", "least_loaded") ∷ []);
      }
      ∷ record { id = "d"; kind = none; config = some (("action", "End") ∷ []) }
      ∷ [];
  edges =
      record { source = "a"; target = some "b"; label = none }
      ∷ record { source = "b"; target = some "c"; label = some "Yes" }
      ∷ record { source = "c"; target = some "d"; label = none }
      ∷ [];
}

abbrev rank : String → ℕ
rank id = if str_eq id "a" then 4 else if str_eq id "b" then 3 else if str_eq id "c" then 2 else 1

-- A graph of two nodes, the second of which has no data, and an edge between them.
abbrev saved : SavedScenario
saved = record {
  nodes =
      record { id = some "a"; kind = some "entry"; config = some [] }
      ∷ record { id = some "b"; kind = none; config = none }
      ∷ [];
  edges = record { source = some "a"; target = some "b"; label = none } ∷ [];
}

run_scenario_unguarded_example :
    run_scenario world scenario state
    ≡ close_run world scenario (walk world scenario 12 (some start) state)
unfolding count_ids find_node find_entry is_entry
run_scenario_unguarded_example =
    run_scenario_unguarded rank world scenario (omega arith, (omega arith, (omega arith, tt))) start
      7 state refl (omega arith)

run_scenario-IsSafe_example : IsSafeRun (run_scenario world scenario state)
unfolding member
run_scenario-IsSafe_example =
    run_scenario-IsSafe world scenario state
      (record { owned = refl; staged = refl; stored = ((refl, refl, inr (refl, refl, refl)), tt) })
