-- ===== src/Agent/Planning/Structure.antt =====
-- What `_validate_structure` (agent/planning/execution_plan_validator.py) accepts.
use sql_self_healing_agent.Prelude.{
  String, ◌≡◌, ◌↔◌, refl, true, false, not, none, List, [], ◌∷◌, any, is_empty, contains, All,
  arith,
}
use sql_self_healing_agent.Agent.Models.{ExecutionStep, ExecutionPlan}
use sql_self_healing_agent.Agent.Graph.{nodes}
use sql_self_healing_agent.Agent.Graph.Spec.{Distinct, Closed, IsAcyclic}
use sql_self_healing_agent.Agent.Graph.Decides.{has_cycle-decides}
use sql_self_healing_agent.Agent.Planning.{
  step_ids, has_duplicate, graph_of, executes_sql, lacks_tool, lacks_request, unknown_dependency,
  current_missing, validate_structure,
}

-- A plan that may be followed.
pub record IsWellFormed (plan : ExecutionPlan) : Type 0 where
  pub not_empty : is_empty plan.steps ≡ false
  pub distinct : Distinct (step_ids plan.steps)
  pub closed : Closed (graph_of plan.steps) (graph_of plan.steps)
  pub acyclic : IsAcyclic (graph_of plan.steps)
  pub harmless : any executes_sql plan.steps ≡ false
  pub tools_named : any lacks_tool plan.steps ≡ false
  pub requests_given : any lacks_request plan.steps ≡ false
  pub current_exists : current_missing plan.current_step_id plan.steps ≡ false

has_duplicate-Distinct : (xs : List String) → has_duplicate xs ≡ false → Distinct xs
unfolding has_duplicate
has_duplicate-Distinct [] h = tt
has_duplicate-Distinct (x ∷ xs) h = (ground arith, has_duplicate-Distinct xs (ground arith))

Distinct-has_duplicate : (xs : List String) → Distinct xs → has_duplicate xs ≡ false
unfolding has_duplicate
Distinct-has_duplicate [] h = refl
Distinct-has_duplicate (x ∷ xs) h = ground (arith, Distinct-has_duplicate xs h.1)

pub nodes-graph_of : (steps : List ExecutionStep) → nodes (graph_of steps) ≡ step_ids steps
nodes-graph_of [] = refl
nodes-graph_of (s ∷ ss) = rw (nodes-graph_of ss)

known_each :
    (ids ds : List String)
    → any (λ d. not (contains d ids)) ds ≡ false
    → All (λ d. contains d ids ≡ true) ds
known_each ids [] h = tt
known_each ids (d ∷ ds) h = (ground arith, known_each ids ds (ground arith))

each_known :
    (ids ds : List String)
    → All (λ d. contains d ids ≡ true) ds
    → any (λ d. not (contains d ids)) ds ≡ false
each_known ids [] h = refl
each_known ids (d ∷ ds) h = ground (arith, each_known ids ds h.1)

module _ (all : List ExecutionStep) where
  known-Closed :
      (steps : List ExecutionStep)
      → any (unknown_dependency all) steps ≡ false
      → Closed (graph_of all) (graph_of steps)
  known-Closed [] h = tt
  known-Closed (s ∷ ss) h = (
    rw (nodes-graph_of all) (known_each (step_ids all) s.depends_on (ground arith)),
    known-Closed ss (ground arith),
  )

  Closed-known :
      (steps : List ExecutionStep)
      → Closed (graph_of all) (graph_of steps)
      → any (unknown_dependency all) steps ≡ false
  Closed-known [] h = refl
  Closed-known (s ∷ ss) h = ground (
    arith,
    each_known (step_ids all) s.depends_on (rw (nodes-graph_of all) at h.0),
    Closed-known ss h.1,
  )

-- The structure check passes exactly the well-formed plans: some step; distinct identifiers; every
-- dependency a step of the plan; no step that depends on itself over any number of steps; no step
-- that would execute production SQL; a tool for each TOOL_CALL and a request for each
-- RUN_SUB_AGENT; and a current step, if one is named, that is a step of the plan.
pub validate_structure_iff :
    (plan : ExecutionPlan) → (validate_structure plan ≡ none) ↔ IsWellFormed plan
unfolding validate_structure
validate_structure_iff plan = (forward, backward)
  where
    forward : validate_structure plan ≡ none → IsWellFormed plan
    forward h =
        let closed : Closed (graph_of plan.steps) (graph_of plan.steps) =
          known-Closed plan.steps plan.steps (ground arith) in
        record {
          not_empty = ground arith;
          distinct = has_duplicate-Distinct (step_ids plan.steps) (ground arith);
          closed = closed;
          acyclic = (has_cycle-decides (graph_of plan.steps) closed).0 (ground arith);
          harmless = ground arith;
          tools_named = ground arith;
          requests_given = ground arith;
          current_exists = ground arith;
        }

    backward : IsWellFormed plan → validate_structure plan ≡ none
    backward w = ground (
      arith,
      Distinct-has_duplicate (step_ids plan.steps) w.distinct,
      Closed-known plan.steps plan.steps w.closed,
      (has_cycle-decides (graph_of plan.steps) w.closed).1 w.acyclic,
    )
