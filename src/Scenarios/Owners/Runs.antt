-- ===== src/Scenarios/Owners/Runs.antt =====
-- A run keeps the owner in the organisation.
use revenact_backend.Prelude.{
  ℕ, zero, suc, ◌+◌, String, Bool, true, false, Option, none, some, is_some, not, inl, inr, str_eq,
  if◌then◌else◌, Option-cases,
}
use revenact_backend.Scenarios.Rows.{State, Node, Scenario, Row, get}
use revenact_backend.Scenarios.Conditions.{World, evaluate_condition}
use revenact_backend.Scenarios.Handlers.{Handled, done, raised, handle}
use revenact_backend.Scenarios.{
  Walked, finished, escaped, Step, pass, stop, log, escape, prepend, count_ids, find_entry,
  config_of, is_entry, condition_step, filter_step, handled_step, action_step, step, proceed, walk,
  close_run, run_scenario,
}
use revenact_backend.Scenarios.Owners.{IsSafe, IsSafeStep, IsSafeWalk, IsSafeRun}
use revenact_backend.Scenarios.Owners.Actions.{IsSafeAnswer, handle-IsSafe}

module _ (world : World) (scenario : Scenario) where
  handled_step-IsSafe :
      (n : Node) (s : State) (h : Option Handled)
      → IsSafe s
      → IsSafeAnswer world h
      → IsSafeStep (handled_step world scenario n s h)
  unfolding handled_step
  handled_step-IsSafe n s none v a = v
  handled_step-IsSafe n s (some (done detail s')) v a = a
  handled_step-IsSafe n s (some (raised error)) v a = v

  condition_step-IsSafe :
      (n : Node) (s : State) (r : Option (Bool × String))
      → IsSafe s
      → IsSafeStep (condition_step world scenario n s r)
  unfolding condition_step
  condition_step-IsSafe n s none v = tt
  condition_step-IsSafe n s (some (result, why)) v = v

  filter_step-IsSafe :
      (n : Node) (s : State) (r : Option (Bool × String))
      → IsSafe s
      → IsSafeStep (filter_step world scenario n s r)
  unfolding filter_step
  filter_step-IsSafe n s none v = tt
  filter_step-IsSafe n s (some (true, why)) v = v
  filter_step-IsSafe n s (some (false, why)) v = tt

  choose_step :
      (c : Bool) (x y : Step) → IsSafeStep x → IsSafeStep y → IsSafeStep (if c then x else y)
  choose_step true x y hx hy = hx
  choose_step false x y hx hy = hy

  action_step-IsSafe :
      (n : Node) (s : State) (action : Option String)
      → IsSafe s
      → IsSafeStep (action_step world scenario n s action)
  unfolding action_step
  action_step-IsSafe n s none v = handled_step-IsSafe n s none v tt
  action_step-IsSafe n s (some action) v = choose_step (str_eq action "End") _ _ tt (
      choose_step (str_eq action "Condition") _ _
        (condition_step-IsSafe n s (evaluate_condition world s (config_of n)) v)
        (choose_step (str_eq action "Filter") _ _
          (filter_step-IsSafe n s (evaluate_condition world s (config_of n)) v)
          (handled_step-IsSafe n s (handle world action s (config_of n)) v
            (handle-IsSafe world action s (config_of n) v))))

  step-IsSafe : (n : Node) (s : State) → IsSafe s → IsSafeStep (step world scenario n s)
  unfolding step
  step-IsSafe n s v =
      choose_step (not (is_some n.config)) escape _ tt
        (choose_step (is_entry n) _ _ tt (action_step-IsSafe n s (get "action" (config_of n)) v))

  prepend-IsSafe : (row : Row) (f : Bool) (w : Walked) → IsSafeWalk w → IsSafeWalk (prepend row f w)
  unfolding prepend
  prepend-IsSafe row f (finished rows g s) h = h
  prepend-IsSafe row f (escaped s) h = h

  proceed-IsSafe :
      (left : ℕ) (s : State) (d : Step)
      → ((next : Option Node) (s' : State)
          → IsSafe s'
          → IsSafeWalk (walk world scenario left next s'))
      → IsSafe s
      → IsSafeStep d
      → IsSafeWalk (proceed world scenario (λ next s'. walk world scenario left next s') s d)
  unfolding proceed
  proceed-IsSafe left s (pass none) later v h = v
  proceed-IsSafe left s (pass (some next)) later v h = later next s v
  proceed-IsSafe left s (stop row) later v h = v
  proceed-IsSafe left s (log row f s' none) later v h = h
  proceed-IsSafe left s (log row f s' (some next)) later v h =
      prepend-IsSafe row f _ (later next s' h)
  proceed-IsSafe left s escape later v h = v

  walk-IsSafe :
      (left : ℕ) (current : Option Node) (s : State)
      → IsSafe s
      → IsSafeWalk (walk world scenario left current s)
  unfolding walk
  walk-IsSafe zero current s v = v
  walk-IsSafe (suc left) none s v = v
  walk-IsSafe (suc left) (some n) s v =
      proceed-IsSafe left s (step world scenario n s) (λ next s'. walk-IsSafe left next s') v
        (step-IsSafe n s v)

  closed-IsSafe : (w : Walked) → IsSafeWalk w → IsSafeRun (close_run world scenario w)
  unfolding close_run
  closed-IsSafe (finished rows f s) h = h
  closed-IsSafe (escaped s) h = h

  -- Whatever the graph says and however the run ends, the customer and every customer on record are
  -- owned by nobody or by a person of their organisation afterwards, their stages are of the stages,
  -- and the customer's row has the organisation, the owner and the stage that the run holds, if that
  -- was so before.
  pub run_scenario-IsSafe : (s : State) → IsSafe s → IsSafeRun (run_scenario world scenario s)
  unfolding run_scenario
  run_scenario-IsSafe s v = elim (Option-cases (find_entry scenario.nodes)) [
    | inl missing ↦ rw (missing, IsSafeRun) v
    | inr (entry, found) ↦
        rw (found, IsSafeRun)
          (closed-IsSafe _ (walk-IsSafe (count_ids scenario.nodes + 1) (some entry) s v))
  ]
