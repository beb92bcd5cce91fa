-- ===== src/Scenarios/Saved.antt =====
-- What a run of a graph reports that nothing has checked.
use revenact_backend.Prelude.{
  ℕ, ◌+◌, ◌≤◌, ◌≡◌, Bool, true, false, Option, none, some, is_some, ◌&&◌, List, [], ◌∷◌, ◌⊎◌,
  if◌then◌else◌, length, any,
}
use revenact_backend.Scenarios.Rows.{Node, Edge, Scenario, SavedNode, SavedEdge, SavedScenario}
use revenact_backend.Scenarios.Conditions.{World}
use revenact_backend.Scenarios.{Run, returned, raises, success, failure, count_ids}
use revenact_backend.Scenarios.Reports.{is_failed, Clause, Reports, lacks_data, lacks_target}

-- Some node has no id or its data is no object; some edge has no source or no target.
abbrev pub lacks_node_part : List SavedNode → Bool
lacks_node_part [] = false
lacks_node_part (n ∷ rest) = if is_some n.id && is_some n.config then lacks_node_part rest else true

abbrev pub lacks_end : List SavedEdge → Bool
lacks_end [] = false
lacks_end (e ∷ rest) = if is_some e.source && is_some e.target then lacks_end rest else true

abbrev pub IsIncomplete : SavedScenario → Type 0
IsIncomplete saved = (lacks_node_part saved.nodes ≡ true) ⊎ (lacks_end saved.edges ≡ true)

-- How many ids the nodes have.
abbrev pub ids_in : Option Scenario → ℕ
ids_in none = 0
ids_in (some scenario) = count_ids scenario.nodes

-- A run of a graph with so many ids by its end.
abbrev pub Tells : (world : World) → SavedScenario → ℕ → Run → Type 0
Tells world saved ids (returned rows status s) =
    (length rows ≤ ids + 1) × (status ≡ (if any is_failed rows then failure else success))
Tells world saved ids (raises s) = Clause world s ⊎ IsIncomplete saved

-- Nodes that are loaded lack what the saved ones lack.
abbrev LoadsNodes : List SavedNode → Option (List Node) → Type 0
LoadsNodes saved none = lacks_node_part saved ≡ true
LoadsNodes saved (some nodes) = lacks_data nodes ≡ true → lacks_node_part saved ≡ true

abbrev LoadsEdges : List SavedEdge → Option (List Edge) → Type 0
LoadsEdges saved none = lacks_end saved ≡ true
LoadsEdges saved (some edges) = lacks_target edges ≡ true → lacks_end saved ≡ true

abbrev Loads : SavedScenario → Option Scenario → Type 0
Loads saved none = IsIncomplete saved
Loads saved (some scenario) =
    ((lacks_data scenario.nodes ≡ true) ⊎ (lacks_target scenario.edges ≡ true)) → IsIncomplete saved
