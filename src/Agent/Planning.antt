-- ===== src/Agent/Planning.antt =====
-- ExecutionPlanValidator of agent/planning/execution_plan_validator.py. A check gives the message of
-- the InvalidExecutionPlan that it raises, or `none`.
pub mod Structure
use Prim.Native.String.{◌++◌ as str_append}
use sql_self_healing_agent.Prelude.{
  ℕ, suc, ◌+◌, String, Bool, true, false, not, ◌&&◌, ◌||◌, Option, none, some, List, [], ◌∷◌, ◌++◌,
  ◌==◌, any, all, find, is_empty, is_none, map, contains, from_keys, leb, nat_eq, some_text, truthy,
  if◌then◌else◌,
}
use sql_self_healing_agent.Repair.Words.{codes}
use sql_self_healing_agent.Repair.Normalize.{lower}
use sql_self_healing_agent.Agent.Models.{
  StepAction, StepStatus, ExecutionStep, ExecutionPlan, ObservationStatus, Observation,
  AgentRunState, AgentRunLimits,
}
use sql_self_healing_agent.Agent.Graph.{DependencyGraph, has_cycle}

abbrev pub Check : Type 0
Check = Option String

infixr 20 ◌orelse◌
-- The first check that raises.
abbrev pub ◌orelse◌ : Check → Check → Check
none orelse later = later
some message orelse later = some message

abbrev pub raise_if : Bool → String → Check
raise_if b message = if b then some message else none

abbrev pub step_ids : List ExecutionStep → List String
step_ids [] = []
step_ids (s ∷ ss) = s.step_id ∷ step_ids ss

-- `len(ids) != len(set(ids))`
unfoldable pub has_duplicate : List String → Bool
has_duplicate [] = false
has_duplicate (x ∷ xs) = contains x xs || has_duplicate xs

-- `by_id[step_id]`: the last step of that identifier.
unfoldable pub by_id : List ExecutionStep → String → Option ExecutionStep
by_id [] k = none
by_id (s ∷ ss) k = elim (by_id ss k) [
  | some later ↦ some later
  | none ↦ if s.step_id == k then some s else none
]

abbrev pub graph_of : List ExecutionStep → DependencyGraph
graph_of [] = []
graph_of (s ∷ ss) = (s.step_id, s.depends_on) ∷ graph_of ss

abbrev pub prefix_codes : List ℕ → List ℕ → Bool
prefix_codes [] xs = true
prefix_codes (k ∷ ks) [] = false
prefix_codes (k ∷ ks) (x ∷ xs) = nat_eq k x && prefix_codes ks xs

-- `needle in text` on codes
unfoldable pub occurs : List ℕ → List ℕ → Bool
occurs needle [] = is_empty needle
occurs needle (x ∷ xs) = prefix_codes needle (x ∷ xs) || occurs needle xs

-- `needle in text.casefold()`, with ASCII letters folded
unfoldable pub mentions_text : String → String → Bool
unfolding occurs
mentions_text needle text = occurs (codes needle) (map lower (codes text))

abbrev tool_executes_sql : Option String → Bool
tool_executes_sql none = false
tool_executes_sql (some tool) =
    truthy tool && mentions_text "execute" tool && mentions_text "sql" tool

-- A step that would execute production SQL.
unfoldable pub executes_sql : ExecutionStep → Bool
unfolding mentions_text
executes_sql s =
    mentions_text "execute_sql" s.step_id
    || mentions_text "执行生产 sql" s.title
    || tool_executes_sql s.tool_name

abbrev pub lacks_tool : ExecutionStep → Bool
lacks_tool s = elim s.action_type [ StepAction.tool_call ↦ not (some_text s.tool_name) | _ ↦ false ]

abbrev pub lacks_request : ExecutionStep → Bool
lacks_request s = elim s.action_type [
  | StepAction.run_sub_agent ↦ is_none s.sub_agent_request
  | _ ↦ false
]

abbrev pub unknown_dependency : List ExecutionStep → ExecutionStep → Bool
unknown_dependency steps s = any (λ d. not (contains d (step_ids steps))) s.depends_on

abbrev pub current_missing : Option String → List ExecutionStep → Bool
current_missing none steps = false
current_missing (some k) steps = truthy k && not (contains k (step_ids steps))

-- `_validate_structure`
unfoldable pub validate_structure : ExecutionPlan → Check
validate_structure plan =
    raise_if (is_empty plan.steps) "execution plan cannot be empty"
    orelse raise_if (has_duplicate (step_ids plan.steps)) "step_id must be unique"
    orelse raise_if (any (unknown_dependency plan.steps) plan.steps) "dependency does not exist"
    orelse raise_if (has_cycle (graph_of plan.steps)) "execution plan contains a cycle"
    orelse raise_if (any executes_sql plan.steps) "production SQL execution is forbidden"
    orelse raise_if (any lacks_tool plan.steps) "TOOL_CALL plan step requires tool_name"
    orelse raise_if (any lacks_request plan.steps)
        "RUN_SUB_AGENT plan step requires sub_agent_request"
    orelse raise_if (current_missing plan.current_step_id plan.steps) "current step does not exist"

-- `validate_initial`; a revision is a natural number here, so it cannot be negative.
unfoldable pub validate_initial : ExecutionPlan → Check
validate_initial plan = validate_structure plan

-- ALLOWED_TRANSITIONS
unfoldable pub allowed_transition : StepStatus → StepStatus → Bool
allowed_transition StepStatus.pending StepStatus.pending = true
allowed_transition StepStatus.pending StepStatus.in_progress = true
allowed_transition StepStatus.pending StepStatus.skipped = true
allowed_transition StepStatus.in_progress StepStatus.in_progress = true
allowed_transition StepStatus.in_progress StepStatus.completed = true
allowed_transition StepStatus.in_progress StepStatus.blocked = true
allowed_transition StepStatus.in_progress StepStatus.skipped = true
allowed_transition StepStatus.blocked StepStatus.blocked = true
allowed_transition StepStatus.blocked StepStatus.in_progress = true
allowed_transition StepStatus.completed StepStatus.completed = true
allowed_transition StepStatus.skipped StepStatus.skipped = true
allowed_transition _ _ = false

abbrev pub check_pair : Option ExecutionStep → Option ExecutionStep → Check
check_pair none new = none
check_pair (some old) none = some "existing steps cannot be deleted"
check_pair (some old) (some new) =
    raise_if (not (allowed_transition old.status new.status)) "invalid step state transition"

-- The loop over `old_by_id`.
unfoldable pub check_steps : List ExecutionStep → List ExecutionStep → List ExecutionStep → Check
unfolding by_id allowed_transition
check_steps all_old new [] = none
check_steps all_old new (s ∷ ss) =
    check_pair (by_id all_old s.step_id) (by_id new s.step_id) orelse check_steps all_old new ss

unfoldable pub validate_transition : ExecutionPlan → ExecutionPlan → Check
validate_transition old new =
    validate_structure new
    orelse check_steps old.steps new.steps old.steps
    orelse raise_if (leb new.revision old.revision) "revision must increase"
    orelse raise_if (current_missing new.current_step_id new.steps) "current step does not exist"
