-- ===== src/Scenarios.antt =====
-- services/scenarios/engine.py: a saved graph of nodes, walked for one customer. The walk is recursion
-- on what is left of `visited_guard`.
pub mod Rows
pub mod Conditions
pub mod Handlers
pub mod Reports
pub mod Saved
pub mod Guard
pub mod Owners
mod Tests
use Prim.Native.String.{◌++◌}
use revenact_backend.Prelude.{
  ℕ, zero, suc, ◌+◌, String, Bool, true, false, not, ◌||◌, Option, none, some, List, [], ◌∷◌,
  str_eq, if◌then◌else◌, is_some,
}
use revenact_backend.Scenarios.Rows.{
  State, Data, Node, Edge, Scenario, SavedNode, SavedEdge, SavedScenario, Outcome, passed, skipped,
  failed, Row, get,
}
use revenact_backend.Scenarios.Conditions.{World, evaluate_condition}
use revenact_backend.Scenarios.Handlers.{Handled, done, raised, handle}

-- How a walk ends: with its log, whether a node failed, and the state; or with an exception that
-- leaves the state as it is.
pub data Walked : Type 0 where
  finished : List Row → Bool → State → Walked
  escaped : State → Walked

pub data RunStatus : Type 0 where
  success failure : RunStatus

-- What `run_scenario` returns, or the exception that it lets through.
pub data Run : Type 0 where
  returned : List Row → RunStatus → State → Run
  raises : State → Run

-- `nodes_by_id.get(id)`: of two nodes with one id, the later.
unfoldable pub find_node : String → List Node → Option Node
find_node id [] = none
find_node id (n ∷ rest) =
    let later = find_node id rest in
    elim later [ some m ↦ some m | none ↦ if str_eq n.id id then some n else none ]

-- `len(nodes_by_id)`
unfoldable pub count_ids : List Node → ℕ
unfolding find_node
count_ids [] = 0
count_ids (n ∷ rest) =
    let others = count_ids rest in if is_some (find_node n.id rest) then others else suc others

unfoldable pub is_entry : Node → Bool
is_entry n = elim (n.kind) [ none ↦ false | some k ↦ str_eq k "entry" ]

unfoldable pub find_entry : List Node → Option Node
unfolding is_entry
find_entry [] = none
find_entry (n ∷ rest) = if is_entry n then some n else find_entry rest

-- The first edge out of a node, and the first with a label.
unfoldable pub first_edge : String → List Edge → Option Edge
first_edge source [] = none
first_edge source (e ∷ rest) = if str_eq e.source source then some e else first_edge source rest

unfoldable pub has_label : String → Edge → Bool
has_label label e = elim (e.label) [ none ↦ false | some l ↦ str_eq l label ]

unfoldable pub labelled_edge : String → String → List Edge → Option Edge
unfolding has_label
labelled_edge source label [] = none
labelled_edge source label (e ∷ rest) =
    let later = labelled_edge source label rest in
    if str_eq e.source source then (if has_label label e then some e else later) else later

-- Where an edge leads, if there is one and its target is a node; none for the KeyError of an edge that
-- has no target.
unfoldable pub follow : Option Edge → List Node → Option (Option Node)
follow none nodes = some none
follow (some e) nodes = elim (e.target) [ none ↦ none | some id ↦ some (find_node id nodes) ]

-- What one node does: a line at most, what follows, if it can be looked up, and whether it failed.
pub data Step : Type 0 where
  pass : Option (Option Node) → Step
  stop : Row → Step
  log : Row → Bool → State → Option (Option Node) → Step
  escape : Step

-- `current.get("data", {})`, where it is an object.
unfoldable pub config_of : Node → Data
config_of n = elim (n.config) [ none ↦ [] | some config ↦ config ]

unfoldable pub row_of : Node → Outcome → String → Row
unfolding config_of
row_of n status detail = record {
  node_id = some n.id;
  action = get "action" (config_of n);
  status = status;
  detail = detail;
}

-- A node's line is kept before those of the rest of the walk.
unfoldable pub prepend : Row → Bool → Walked → Walked
prepend row failed_here (finished rows any_failed s) =
    finished (row ∷ rows) (failed_here || any_failed) s
prepend row failed_here (escaped s) = escaped s

module _ (world : World) (scenario : Scenario) where
  unfoldable pub next_of : Node → Option (Option Node)
  unfolding follow first_edge
  next_of n = follow (first_edge n.id scenario.edges) scenario.nodes

  unfoldable pub condition_step : Node → State → Option (Bool × String) → Step
  unfolding labelled_edge
  condition_step n s none = escape
  condition_step n s (some (result, why)) =
      log
        (row_of n passed
          ("Condition evaluated to " ++ (if result then "True" else "False") ++ ". " ++ why))
        false s
        (follow (labelled_edge n.id (if result then "Yes" else "No") scenario.edges) scenario.nodes)

  unfoldable pub filter_step : Node → State → Option (Bool × String) → Step
  filter_step n s none = escape
  filter_step n s (some (false, why)) =
      stop (row_of n passed "Filter condition false — run stopped here.")
  filter_step n s (some (true, why)) =
      log (row_of n passed "Filter condition true — continuing.") false s (next_of n)

  unfoldable pub handled_step : Node → State → Option Handled → Step
  handled_step n s none =
      log
        (row_of n skipped (
          "\""
          ++ elim (get "action" (config_of n)) [ none ↦ "None" | some a ↦ a ]
          ++ "\" isn't wired to a real system yet."))
        false s (next_of n)
  handled_step n s (some (done detail s')) = log (row_of n passed detail) false s' (next_of n)
  handled_step n s (some (raised error)) = log (row_of n failed error) true s (next_of n)

  -- The body of the loop for a node that is not the entry.
  unfoldable pub action_step : Node → State → Option String → Step
  action_step n s none = handled_step n s none
  action_step n s (some action) =
      if str_eq action "End"
      then stop (row_of n passed "End of flow.")
      else if str_eq action "Condition"
      then condition_step n s (evaluate_condition world s (config_of n))
      else if str_eq action "Filter"
      then filter_step n s (evaluate_condition world s (config_of n))
      else handled_step n s (handle world action s (config_of n))

  -- The body of the loop; data that is no object has no `get`.
  unfoldable pub step : Node → State → Step
  unfolding config_of
  step n s =
      if not (is_some n.config)
      then escape
      else if is_entry n
      then pass (next_of n)
      else action_step n s (get "action" (config_of n))

  -- What the loop does with a step, before the rest of the walk.
  unfoldable pub proceed : (Option Node → State → Walked) → State → Step → Walked
  unfolding prepend
  proceed later s (pass none) = escaped s
  proceed later s (pass (some next)) = later next s
  proceed later s (stop row) = finished (row ∷ []) false s
  proceed later s (log row failed_here s' none) = escaped s'
  proceed later s (log row failed_here s' (some next)) = prepend row failed_here (later next s')
  proceed later s escape = escaped s

  -- The loop, with `left` turns allowed.
  unfoldable pub walk : ℕ → Option Node → State → Walked
  walk zero current s = finished [] false s
  walk (suc left) none s = finished [] false s
  walk (suc left) (some n) s = proceed (λ next s'. walk left next s') s (step n s)

  unfoldable pub close_run : Walked → Run
  close_run (finished rows any_failed s) = returned rows (if any_failed then failure else success) s
  close_run (escaped s) = raises s

  unfoldable pub run_scenario : State → Run
  run_scenario s = elim (find_entry scenario.nodes) [
    | none ↦
        returned
          (record { node_id = none; action = none; status = failed; detail = "No entry node." }
            ∷ [])
          failure s
    | some entry ↦ close_run (walk (count_ids scenario.nodes + 1) (some entry) s)
  ]

-- `_build_graph` reads each node's id and each edge's source; none for a KeyError.
unfoldable pub load_nodes : List SavedNode → Option (List Node)
load_nodes [] = some []
load_nodes (n ∷ rest) = elim (n.id) [
  | none ↦ none
  | some id ↦ elim (load_nodes rest) [
    | none ↦ none
    | some nodes ↦ some (record { id = id; kind = n.kind; config = n.config } ∷ nodes)
  ]
]

unfoldable pub load_edges : List SavedEdge → Option (List Edge)
load_edges [] = some []
load_edges (e ∷ rest) = elim (e.source) [
  | none ↦ none
  | some source ↦ elim (load_edges rest) [
    | none ↦ none
    | some edges ↦ some (record { source = source; target = e.target; label = e.label } ∷ edges)
  ]
]

unfoldable pub load : SavedScenario → Option Scenario
unfolding load_nodes load_edges
load saved = elim (load_nodes saved.nodes) [
  | none ↦ none
  | some nodes ↦ elim (load_edges saved.edges) [
    | none ↦ none
    | some edges ↦ some (record { nodes = nodes; edges = edges })
  ]
]

-- `run_scenario` on the graph as it is saved.
unfoldable pub run_saved : World → SavedScenario → State → Run
unfolding load
run_saved world saved s = elim (load saved) [
  | none ↦ raises s
  | some scenario ↦ run_scenario world scenario s
]
