-- ===== src/Examples/Agent.antt =====
-- The theorems on execution plans at the initial plan and at a plan with a cycle.
use sql_self_healing_agent.Prelude.{
  ◌≡◌, refl, ◌↔◌, ◌≤◌, ◌+◌, false, none, some, [], ◌∷◌, All, arith,
}
use sql_self_healing_agent.Agent.Models.{
  StepAction, StepStatus, ExecutionStep, ExecutionPlan, AgentRunState, build_initial_execution_plan,
  default_limits,
}
use sql_self_healing_agent.Agent.Graph.{DependencyGraph, has_cycle, close, dependencies, open_node}
use sql_self_healing_agent.Agent.Graph.Spec.{Closed, IsAcyclic}
use sql_self_healing_agent.Agent.Graph.Decides.{has_cycle-decides}
use sql_self_healing_agent.Agent.Planning.{
  validate_structure, by_id, check_steps, executes_sql, has_duplicate, validate_transition,
}
use sql_self_healing_agent.Agent.Planning.Structure.{IsWellFormed, validate_structure_iff}
use sql_self_healing_agent.Agent.Updater.{
  replaced, replace, next_step, apply_observation, dependencies_done,
}
use sql_self_healing_agent.Agent.Updater.Revisions.{Kept, replace_sound, replace-keeps_steps}
use sql_self_healing_agent.Agent.Updater.Selection.{
  Done, Selected, next_step-Selected, next_step-none,
}
use sql_self_healing_agent.Agent.Updater.Observations.{Observed, apply_observation-Observed}
use sql_self_healing_agent.Examples.Data.{fresh_state, log_read}

abbrev ring : DependencyGraph
ring = ("a", "b" ∷ []) ∷ ("b", "a" ∷ []) ∷ []

ring-Closed : Closed ring ring
ring-Closed = ((refl, tt), ((refl, tt), tt))

has_cycle-decides_example : (has_cycle ring ≡ false) ↔ IsAcyclic ring
has_cycle-decides_example = has_cycle-decides ring ring-Closed

abbrev initial : ExecutionPlan
initial = build_initial_execution_plan

validate_structure_example : (validate_structure initial ≡ none) ↔ IsWellFormed initial
validate_structure_example = validate_structure_iff initial

initial_accepted : validate_structure initial ≡ none
unfolding validate_structure build_initial_execution_plan has_duplicate has_cycle open_node
    dependencies close executes_sql
initial_accepted = refl

pub initial-IsWellFormed : IsWellFormed initial
initial-IsWellFormed = (validate_structure_iff initial).0 initial_accepted

apply_observation_example :
    (plan' : ExecutionPlan) × (apply_observation initial log_read ≡ some plan')
    × Observed log_read initial plan'
apply_observation_example = apply_observation-Observed log_read initial initial-IsWellFormed

abbrev revised : ExecutionPlan
revised = record initial { revision = 1 }

abbrev revised_again : ExecutionPlan
revised_again = record initial { revision = 2 }

abbrev once : AgentRunState
once = record fresh_state { plan_revision_count = 1 }

abbrev twice : AgentRunState
twice = record fresh_state { plan_revision_count = 2 }

replacing : replace revised initial once default_limits ≡ replaced revised_again twice
unfolding replace validate_transition validate_structure build_initial_execution_plan has_duplicate
    has_cycle open_node dependencies close executes_sql check_steps
replacing = refl

replace_sound_example :
    IsWellFormed revised_again
    × (revised_again.revision ≡ revised.revision + 1)
    × (twice.plan_revision_count ≡ once.plan_revision_count + 1)
    × (twice.plan_revision_count ≤ default_limits.max_plan_revisions)
replace_sound_example =
    replace_sound revised initial once default_limits revised_again twice replacing

abbrev reading : ExecutionStep
reading = record {
  step_id = "read_log";
  title = "读取并整理错误日志";
  action_type = StepAction.tool_call;
  tool_name = some "build_log_digest";
  tool_input = [];
  sub_agent_request = none;
  status = StepStatus.pending;
  depends_on = [];
  execution_count = 0;
  result_refs = [];
  failure_reason = none;
}

at_reading : by_id revised.steps "read_log" ≡ some reading
unfolding by_id build_initial_execution_plan
at_reading = refl

replace-keeps_steps_example : Kept revised revised_again "read_log" reading
replace-keeps_steps_example =
    replace-keeps_steps revised initial once default_limits revised_again twice replacing "read_log"
      reading (omega arith) at_reading

reading_next : next_step initial.steps initial.steps ≡ some (some "read_log")
unfolding next_step build_initial_execution_plan dependencies_done
reading_next = refl

next_step-Selected_example : Selected initial.steps initial.steps "read_log"
next_step-Selected_example = next_step-Selected initial.steps initial.steps "read_log" reading_next

abbrev done_step : ExecutionStep
done_step = record reading { status = StepStatus.completed }

-- A step that waits for itself
abbrev waiting : ExecutionStep
waiting = record reading { step_id = "propose"; depends_on = "read_log" ∷ "propose" ∷ [] }

nothing_next : next_step (done_step ∷ waiting ∷ []) (done_step ∷ waiting ∷ []) ≡ some none
unfolding next_step dependencies_done by_id
nothing_next = refl

next_step-none_example :
    All
      (λ s. s.status ≡ StepStatus.pending → ¬ (Done (done_step ∷ waiting ∷ []) s.depends_on))
      (done_step ∷ waiting ∷ [])
next_step-none_example =
    next_step-none (done_step ∷ waiting ∷ []) (done_step ∷ waiting ∷ []) nothing_next
