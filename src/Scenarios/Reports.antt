-- ===== src/Scenarios/Reports.antt =====
-- What a run reports.
use revenact_backend.Prelude.{
  ℕ, zero, suc, ◌+◌, ◌≤◌, String, ◌≡◌, refl, Bool, true, false, Option, none, some, is_some, List,
  [], ◌∷◌, ◌⊎◌, arith, inl, inr, str_eq, if◌then◌else◌, length, any, Bool-cases, Option-cases,
}
use revenact_backend.Scenarios.Rows.{State, Node, Edge, Scenario, failed, Row, get}
use revenact_backend.Scenarios.Conditions.{World, evaluate_condition}
use revenact_backend.Scenarios.Handlers.{Handled, done, raised, handle}
use revenact_backend.Scenarios.{
  Walked, finished, escaped, Step, pass, stop, log, escape, Run, returned, raises, success, failure,
  row_of, prepend, config_of, next_of, follow, find_node, first_edge, labelled_edge, has_label,
  count_ids, find_entry, is_entry, condition_step, filter_step, handled_step, action_step, step,
  proceed, walk, close_run, run_scenario,
}

abbrev pub is_failed : Row → Bool
is_failed row = elim (row.status) [ failed ↦ true | _ ↦ false ]

-- Some node has a clause that raises in the state.
abbrev pub Clause : World → State → Type 0
Clause world s = (n : Node) × (evaluate_condition world s (config_of n) ≡ none)

-- Some node's data is no object; some edge has no target.
abbrev pub lacks_data : List Node → Bool
lacks_data [] = false
lacks_data (n ∷ rest) = if is_some n.config then lacks_data rest else true

abbrev pub lacks_target : List Edge → Bool
lacks_target [] = false
lacks_target (e ∷ rest) = if is_some e.target then lacks_target rest else true

-- Why a run may let an exception through: a clause that raises, or a graph that lacks something.
abbrev pub Cause : World → Scenario → State → Type 0
Cause world scenario s =
    Clause world s ⊎ ((lacks_data scenario.nodes ≡ true) ⊎ (lacks_target scenario.edges ≡ true))

-- What follows a node is a node of the graph: if its data is no object, the graph has such a node.
abbrev pub IsKnown : List Node → Option Node → Type 0
IsKnown nodes none = Unit
IsKnown nodes (some n) = is_some n.config ≡ false → lacks_data nodes ≡ true

abbrev pub IsNextKnown : List Node → List Edge → Option (Option Node) → Type 0
IsNextKnown nodes edges none = lacks_target edges ≡ true
IsNextKnown nodes edges (some next) = IsKnown nodes next

IsKnown-later :
    (n : Node) (nodes : List Node) (next : Option Node)
    → IsKnown nodes next
    → IsKnown (n ∷ nodes) next
IsKnown-later n nodes none h = tt
IsKnown-later n nodes (some m) h = λ broken. elim (Bool-cases (is_some n.config)) [
  | inl whole ↦ rw whole (h broken)
  | inr own ↦ rw own refl
]

find_node-IsKnown : (id : String) (nodes : List Node) → IsKnown nodes (find_node id nodes)
unfolding find_node
find_node-IsKnown id [] = tt
find_node-IsKnown id (n ∷ rest) = elim (Option-cases (find_node id rest)) [
  | inr (m, found) ↦
      rw (found, IsKnown) (IsKnown-later n rest (some m) (rw found at (find_node-IsKnown id rest)))
  | inl missing ↦ elim (Bool-cases (str_eq n.id id)) [
    | inl same ↦ rw (missing, same, IsKnown) (λ broken. rw broken refl)
    | inr other ↦ rw (missing, other, IsKnown) tt
  ]
]

find_entry-IsKnown : (nodes : List Node) → IsKnown nodes (find_entry nodes)
unfolding find_entry
find_entry-IsKnown [] = tt
find_entry-IsKnown (n ∷ rest) = elim (Bool-cases (is_entry n)) [
  | inl entry ↦ rw entry (λ broken. rw broken refl)
  | inr other ↦ rw other (IsKnown-later n rest (find_entry rest) (find_entry-IsKnown rest))
]

module _ (nodes : List Node) where
  follow-IsNextKnown :
      (e : Edge) (edges : List Edge) → IsNextKnown nodes (e ∷ edges) (follow (some e) nodes)
  unfolding follow
  follow-IsNextKnown e edges = at e.target refl
    where
      at :
          (target : Option String)
          → e.target ≡ target
          → IsNextKnown nodes
              (e ∷ edges)
              (elim target [ none ↦ none | some id ↦ some (find_node id nodes) ])
      at none missing = rw missing refl
      at (some id) there = find_node-IsKnown id nodes

  IsNextKnown-later :
      (e : Edge) (edges : List Edge) (next : Option (Option Node))
      → IsNextKnown nodes edges next
      → IsNextKnown nodes (e ∷ edges) next
  IsNextKnown-later e edges (some next) h = h
  IsNextKnown-later e edges none h = elim (Bool-cases (is_some e.target)) [
    | inl whole ↦ rw whole h
    | inr own ↦ rw own refl
  ]

  first_edge-IsNextKnown :
      (source : String) (edges : List Edge)
      → IsNextKnown nodes edges (follow (first_edge source edges) nodes)
  unfolding first_edge
  first_edge-IsNextKnown source [] = unfold follow in tt
  first_edge-IsNextKnown source (e ∷ rest) = elim (Bool-cases (str_eq e.source source)) [
    | inl out ↦ rw out (follow-IsNextKnown e rest)
    | inr other ↦ rw other (IsNextKnown-later e rest _ (first_edge-IsNextKnown source rest))
  ]

  labelled_edge-IsNextKnown :
      (source label : String) (edges : List Edge)
      → IsNextKnown nodes edges (follow (labelled_edge source label edges) nodes)
  unfolding labelled_edge
  labelled_edge-IsNextKnown source label [] = unfold follow in tt
  labelled_edge-IsNextKnown source label (e ∷ rest) = elim (Bool-cases (str_eq e.source source)) [
    | inr other ↦
        rw other (IsNextKnown-later e rest _ (labelled_edge-IsNextKnown source label rest))
    | inl out ↦ elim (Bool-cases (has_label label e)) [
      | inl marked ↦ rw (out, marked) (follow-IsNextKnown e rest)
      | inr plain ↦
          rw (out, plain) (IsNextKnown-later e rest _ (labelled_edge-IsNextKnown source label rest))
    ]
  ]

module _ (world : World) (scenario : Scenario) where
  -- A step says that it failed where its line does, goes on to a node of the graph, and escapes only
  -- with a cause.
  abbrev pub IsHonest : State → Step → Type 0
  IsHonest s (pass next) = IsNextKnown scenario.nodes scenario.edges next
  IsHonest s (stop row) = is_failed row ≡ false
  IsHonest s (log row failed_here s' next) =
      (failed_here ≡ is_failed row) × IsNextKnown scenario.nodes scenario.edges next
  IsHonest s escape = Cause world scenario s

  -- A walk of `left` turns by its end.
  abbrev pub Tells : ℕ → Walked → Type 0
  Tells left (finished rows any_failed s) = (length rows ≤ left) × (any_failed ≡ any is_failed rows)
  Tells left (escaped s) = Cause world scenario s

  -- A run of a graph of `size` nodes by its end.
  abbrev pub Reports : ℕ → Run → Type 0
  Reports size (returned rows status s) =
      (length rows ≤ size + 1) × (status ≡ (if any is_failed rows then failure else success))
  Reports size (raises s) = Cause world scenario s

  prepend-Tells :
      (left : ℕ) (row : Row) (failed_here : Bool) (w : Walked)
      → failed_here ≡ is_failed row
      → Tells left w
      → Tells (suc left) (prepend row failed_here w)
  unfolding prepend
  prepend-Tells left row failed_here (finished rows any_failed s) e h = (ground arith, ground arith)
  prepend-Tells left row failed_here (escaped s) e h = h

  next-IsNextKnown :
      (n : Node) → IsNextKnown scenario.nodes scenario.edges (next_of world scenario n)
  unfolding next_of
  next-IsNextKnown n = first_edge-IsNextKnown scenario.nodes n.id scenario.edges

  handled_step-IsHonest :
      (n : Node) (s : State) (h : Option Handled) → IsHonest s (handled_step world scenario n s h)
  unfolding handled_step row_of
  handled_step-IsHonest n s none = (refl, next-IsNextKnown n)
  handled_step-IsHonest n s (some (done detail s')) = (refl, next-IsNextKnown n)
  handled_step-IsHonest n s (some (raised error)) = (refl, next-IsNextKnown n)

  condition_step-IsHonest :
      (n : Node) (s : State) (r : Option (Bool × String))
      → evaluate_condition world s (config_of n) ≡ r
      → IsHonest s (condition_step world scenario n s r)
  unfolding condition_step row_of
  condition_step-IsHonest n s none e = inl (n, e)
  condition_step-IsHonest n s (some (true, why)) e =
      (refl, labelled_edge-IsNextKnown scenario.nodes n.id "Yes" scenario.edges)
  condition_step-IsHonest n s (some (false, why)) e =
      (refl, labelled_edge-IsNextKnown scenario.nodes n.id "No" scenario.edges)

  filter_step-IsHonest :
      (n : Node) (s : State) (r : Option (Bool × String))
      → evaluate_condition world s (config_of n) ≡ r
      → IsHonest s (filter_step world scenario n s r)
  unfolding filter_step row_of
  filter_step-IsHonest n s none e = inl (n, e)
  filter_step-IsHonest n s (some (true, why)) e = (refl, next-IsNextKnown n)
  filter_step-IsHonest n s (some (false, why)) e = refl

  action_step-IsHonest :
      (n : Node) (s : State) (action : Option String)
      → IsHonest s (action_step world scenario n s action)
  unfolding action_step row_of
  action_step-IsHonest n s none = handled_step-IsHonest n s none
  action_step-IsHonest n s (some action) = elim (Bool-cases (str_eq action "End")) [
    | inl ends ↦ rw ends refl
    | inr goes ↦ elim (Bool-cases (str_eq action "Condition")) [
      | inl tests ↦ rw (goes, tests) (condition_step-IsHonest n s _ refl)
      | inr acts ↦ elim (Bool-cases (str_eq action "Filter")) [
        | inl filters ↦ rw (goes, acts, filters) (filter_step-IsHonest n s _ refl)
        | inr other ↦
            rw (goes, acts, other) (handled_step-IsHonest n s (handle world action s (config_of n)))
      ]
    ]
  ]

  pub step-IsHonest :
      (n : Node) (s : State)
      → IsKnown scenario.nodes (some n)
      → IsHonest s (step world scenario n s)
  unfolding step
  step-IsHonest n s known = elim (Bool-cases (is_some n.config)) [
    | inr broken ↦ rw broken (inr (inl (known broken)))
    | inl whole ↦ elim (Bool-cases (is_entry n)) [
      | inl entry ↦ rw (whole, entry) (next-IsNextKnown n)
      | inr node ↦ rw (whole, node) (action_step-IsHonest n s (get "action" (config_of n)))
    ]
  ]

  proceed-Tells :
      (left : ℕ) (s : State) (d : Step)
      → ((next : Option Node) (s' : State)
          → IsKnown scenario.nodes next
          → Tells left (walk world scenario left next s'))
      → IsHonest s d
      → Tells (suc left) (proceed world scenario (λ next s'. walk world scenario left next s') s d)
  unfolding proceed
  proceed-Tells left s (pass none) later h = inr (inr h)
  proceed-Tells left s (pass (some next)) later h = widen _ (later next s h)
    where
      widen : (w : Walked) → Tells left w → Tells (suc left) w
      widen (finished rows f s'') t = (omega (arith, t.0), t.1)
      widen (escaped s'') t = t
  proceed-Tells left s (stop row) later h = (omega arith, rw h refl)
  proceed-Tells left s (log row failed_here s' none) later h = inr (inr h.1)
  proceed-Tells left s (log row failed_here s' (some next)) later h =
      prepend-Tells left row failed_here _ h.0 (later next s' h.1)
  proceed-Tells left s escape later h = h

  walk-Tells :
      (left : ℕ) (current : Option Node) (s : State)
      → IsKnown scenario.nodes current
      → Tells left (walk world scenario left current s)
  unfolding walk
  walk-Tells zero current s known = (omega arith, refl)
  walk-Tells (suc left) none s known = (omega arith, refl)
  walk-Tells (suc left) (some n) s known =
      proceed-Tells left s (step world scenario n s)
        (λ next s' next_known. walk-Tells left next s' next_known) (step-IsHonest n s known)

  closed-Reports :
      (size : ℕ) (w : Walked) → Tells (size + 1) w → Reports size (close_run world scenario w)
  unfolding close_run
  closed-Reports size (finished rows f s) t = (t.0, rw (t.1) refl)
  closed-Reports size (escaped s) t = t

  pub run_scenario-Reports :
      (s : State) → Reports (count_ids scenario.nodes) (run_scenario world scenario s)
  unfolding run_scenario
  run_scenario-Reports s = elim (Option-cases (find_entry scenario.nodes)) [
    | inl missing ↦ rw (missing, Reports) (omega arith, refl)
    | inr (entry, found) ↦
        rw (found, Reports)
          (closed-Reports (count_ids scenario.nodes) _ (
            walk-Tells (count_ids scenario.nodes + 1) (some entry) s
              (rw found at (find_entry-IsKnown scenario.nodes))))
  ]
