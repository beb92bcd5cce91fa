-- ===== src/Scenarios/Guard.antt =====
-- The guard of the loop stops no walk of a graph without cycles.
use revenact_backend.Prelude.{
  ℕ, zero, suc, ◌+◌, ◌≤◌, ◌<◌, String, ◌≡◌, refl, sym, ap, subst, ◌∙◌, Bool, true, false, Option,
  none, some, is_some, List, [], ◌∷◌, arith, inl, inr, str_eq, str_eq_iff, All, Bool-cases,
  Option-cases,
}
use revenact_backend.Scenarios.Rows.{State, Node, Edge, Scenario, get}
use revenact_backend.Scenarios.Conditions.{World, evaluate_condition}
use revenact_backend.Scenarios.Handlers.{Handled, done, raised, handle}
use revenact_backend.Scenarios.{
  Step, pass, stop, log, escape, prepend, count_ids, find_node, find_entry, is_entry, first_edge,
  labelled_edge, has_label, config_of, follow, next_of, condition_step, filter_step, handled_step,
  action_step, step, proceed, walk, close_run, run_scenario,
}

module _ (rank : String → ℕ) where
  -- A target below `high`, or none.
  abbrev pub IsTargetBelow : ℕ → Option String → Type 0
  IsTargetBelow high none = Unit
  IsTargetBelow high (some id) = rank id < high

  -- Every edge that leads somewhere leads to a lower rank.
  abbrev pub IsDescending : List Edge → Type 0
  IsDescending = All (λ e. IsTargetBelow (rank e.source) e.target)

  -- A node below `high`, or none.
  abbrev pub IsBelow : ℕ → Option Node → Type 0
  IsBelow high none = Unit
  IsBelow high (some n) = rank n.id < high

  abbrev pub IsNextBelow : ℕ → Option (Option Node) → Type 0
  IsNextBelow high none = Unit
  IsNextBelow high (some next) = IsBelow high next

  abbrev pub Descends : ℕ → Step → Type 0
  Descends high (pass next) = IsNextBelow high next
  Descends high (stop row) = Unit
  Descends high (log row failed_here s next) = IsNextBelow high next
  Descends high escape = Unit

  find_node-id :
      (id : String) (nodes : List Node) {n : Node} → find_node id nodes ≡ some n → n.id ≡ id
  unfolding find_node
  find_node-id id [] e = cc e
  find_node-id id (m ∷ rest) {n} e = elim (Option-cases (find_node id rest)) [
    | inr (k, found) ↦ find_node-id id rest {n = n} (found ∙ (rw found at e))
    | inl missing ↦ elim (Bool-cases (str_eq m.id id)) [
      | inl same ↦
          let own : m ≡ n = cc (rw (missing, same) at e) in
          subst (λ (x : Node). x.id ≡ id) own ((str_eq_iff m.id id).0 same)
      | inr other ↦ cc (rw (missing, other) at e)
    ]
  ]

  follow-IsBelow :
      (high : ℕ) (e : Edge) (nodes : List Node)
      → IsTargetBelow high e.target
      → IsNextBelow high (follow (some e) nodes)
  unfolding follow
  follow-IsBelow high e nodes lower = at e.target lower
    where
      at :
          (target : Option String)
          → IsTargetBelow high target
          → IsNextBelow high (elim target [ none ↦ none | some id ↦ some (find_node id nodes) ])
      at none lower = tt
      at (some id) lower = elim (Option-cases (find_node id nodes)) [
        | inl missing ↦ rw missing tt
        | inr (n, found) ↦ rw found (rw (find_node-id id nodes found) lower)
      ]

  first-IsBelow :
      (source : String) (edges : List Edge) (nodes : List Node)
      → IsDescending edges
      → IsNextBelow (rank source) (follow (first_edge source edges) nodes)
  unfolding first_edge follow
  first-IsBelow source [] nodes h = tt
  first-IsBelow source (e ∷ rest) nodes h = elim (Bool-cases (str_eq e.source source)) [
    | inl out ↦ rw out (
        follow-IsBelow (rank source) e nodes (
          subst (λ (x : String). IsTargetBelow (rank x) e.target)
            ((str_eq_iff e.source source).0 out) h.0))
    | inr other ↦ rw other (first-IsBelow source rest nodes h.1)
  ]

  labelled-IsBelow :
      (source label : String) (edges : List Edge) (nodes : List Node)
      → IsDescending edges
      → IsNextBelow (rank source) (follow (labelled_edge source label edges) nodes)
  unfolding labelled_edge follow
  labelled-IsBelow source label [] nodes h = tt
  labelled-IsBelow source label (e ∷ rest) nodes h = elim (Bool-cases (str_eq e.source source)) [
    | inr other ↦ rw other (labelled-IsBelow source label rest nodes h.1)
    | inl out ↦ elim (Bool-cases (has_label label e)) [
      | inr plain ↦ rw (out, plain) (labelled-IsBelow source label rest nodes h.1)
      | inl marked ↦
          rw (out, marked)
            (follow-IsBelow (rank source) e nodes (
              subst (λ (x : String). IsTargetBelow (rank x) e.target)
                ((str_eq_iff e.source source).0 out) h.0))
    ]
  ]

  module _ (world : World) (scenario : Scenario) (descending : IsDescending scenario.edges) where
    next-IsBelow : (n : Node) → IsNextBelow (rank n.id) (next_of world scenario n)
    unfolding next_of
    next-IsBelow n = first-IsBelow n.id scenario.edges scenario.nodes descending

    handled_step-Descends :
        (n : Node) (s : State) (h : Option Handled)
        → Descends (rank n.id) (handled_step world scenario n s h)
    unfolding handled_step
    handled_step-Descends n s none = next-IsBelow n
    handled_step-Descends n s (some (done detail s')) = next-IsBelow n
    handled_step-Descends n s (some (raised error)) = next-IsBelow n

    condition_step-Descends :
        (n : Node) (s : State) (r : Option (Bool × String))
        → Descends (rank n.id) (condition_step world scenario n s r)
    unfolding condition_step
    condition_step-Descends n s none = tt
    condition_step-Descends n s (some (true, why)) =
        labelled-IsBelow n.id "Yes" scenario.edges scenario.nodes descending
    condition_step-Descends n s (some (false, why)) =
        labelled-IsBelow n.id "No" scenario.edges scenario.nodes descending

    filter_step-Descends :
        (n : Node) (s : State) (r : Option (Bool × String))
        → Descends (rank n.id) (filter_step world scenario n s r)
    unfolding filter_step
    filter_step-Descends n s none = tt
    filter_step-Descends n s (some (true, why)) = next-IsBelow n
    filter_step-Descends n s (some (false, why)) = tt

    action_step-Descends :
        (n : Node) (s : State) (action : Option String)
        → Descends (rank n.id) (action_step world scenario n s action)
    unfolding action_step
    action_step-Descends n s none = handled_step-Descends n s none
    action_step-Descends n s (some action) = elim (Bool-cases (str_eq action "End")) [
      | inl ends ↦ rw ends tt
      | inr goes ↦ elim (Bool-cases (str_eq action "Condition")) [
        | inl tests ↦
            rw (goes, tests)
              (condition_step-Descends n s (evaluate_condition world s (config_of n)))
        | inr acts ↦ elim (Bool-cases (str_eq action "Filter")) [
          | inl filters ↦
              rw (goes, acts, filters)
                (filter_step-Descends n s (evaluate_condition world s (config_of n)))
          | inr other ↦
              rw (goes, acts, other)
                (handled_step-Descends n s (handle world action s (config_of n)))
        ]
      ]
    ]

    step-Descends : (n : Node) (s : State) → Descends (rank n.id) (step world scenario n s)
    unfolding step
    step-Descends n s = elim (Bool-cases (is_some n.config)) [
      | inr broken ↦ rw broken tt
      | inl whole ↦ elim (Bool-cases (is_entry n)) [
        | inl entry ↦ rw (whole, entry) (next-IsBelow n)
        | inr node ↦ rw (whole, node) (action_step-Descends n s (get "action" (config_of n)))
      ]
    ]

    -- More turns change nothing.
    proceed-eq :
        (left most high : ℕ) (s : State) (d : Step)
        → Descends high d
        → ((next : Option Node) (s' : State)
            → IsBelow high next
            → walk world scenario most next s' ≡ walk world scenario left next s')
        → proceed world scenario (λ next s'. walk world scenario most next s') s d
          ≡ proceed world scenario (λ next s'. walk world scenario left next s') s d
    unfolding proceed
    proceed-eq left most high s (pass none) h later = refl
    proceed-eq left most high s (pass (some next)) h later = later next s h
    proceed-eq left most high s (stop row) h later = refl
    proceed-eq left most high s (log row failed_here s' none) h later = refl
    proceed-eq left most high s (log row failed_here s' (some next)) h later =
        ap (prepend row failed_here) (later next s' h)
    proceed-eq left most high s escape h later = refl

    walk_more :
        (left most : ℕ) (current : Option Node) (s : State)
        → left ≤ most
        → IsBelow left current
        → walk world scenario most current s ≡ walk world scenario left current s
    unfolding walk
    walk_more zero zero none s le h = refl
    walk_more zero (suc most) none s le h = refl
    walk_more zero most (some n) s le h = absurd (omega arith)
    walk_more (suc left) zero current s le h = absurd (omega arith)
    walk_more (suc left) (suc most) none s le h = refl
    walk_more (suc left) (suc most) (some n) s le h =
        proceed-eq left most (rank n.id) s (step world scenario n s) (step-Descends n s)
          (λ next s' below. walk_more left most next s' (omega arith) (weaken next below))
      where
        weaken : (next : Option Node) → IsBelow (rank n.id) next → IsBelow left next
        weaken none b = tt
        weaken (some m) b = omega arith

    -- Where the nodes can be numbered so that every edge that has a target leads to a lower number, and the entry's is
    -- at most the number of nodes, the guard cuts nothing: with any number of turns more, the loop
    -- ends in the same way.
    pub run_scenario_unguarded :
        (entry : Node) (more : ℕ) (s : State)
        → find_entry scenario.nodes ≡ some entry
        → rank entry.id ≤ count_ids scenario.nodes
        → run_scenario world scenario s
          ≡ close_run world scenario
              (walk world scenario (count_ids scenario.nodes + 1 + more) (some entry) s)
    unfolding run_scenario
    run_scenario_unguarded entry more s found low =
        rw (found, run_scenario)
          (ap (close_run world scenario) (
            sym (
              walk_more (count_ids scenario.nodes + 1) (count_ids scenario.nodes + 1 + more)
                (some entry) s (omega arith) (omega arith))))
