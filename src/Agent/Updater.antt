-- ===== src/Agent/Updater.antt =====
-- ExecutionPlanUpdater and ProgressDetector: execution_plan_updater.py and progress_detector.py of
-- agent/planning.
pub mod Revisions
pub mod Observations
pub mod Selection
use sql_self_healing_agent.Prelude.{
  ℕ, ◌+◌, String, Bool, true, false, not, ◌&&◌, Option, none, some, List, [], ◌∷◌, ◌++◌, ◌==◌, all,
  contains, from_keys, leb, nat_eq, truthy, if◌then◌else◌,
}
use sql_self_healing_agent.Agent.Models.{
  StepStatus, ExecutionStep, ExecutionPlan, ObservationStatus, Observation, AgentRunState,
  AgentRunLimits,
}
use sql_self_healing_agent.Agent.Planning.{Check, by_id, validate_initial, validate_transition}

-- What `replace` does: it raises ValueError or InvalidExecutionPlan, or gives the plan and the state.
pub data Replacement : Type 0 where
  value_error : Replacement
  invalid : String → Replacement
  replaced : ExecutionPlan → AgentRunState → Replacement

abbrev finish_replace : Check → ExecutionPlan → AgentRunState → Replacement
finish_replace (some message) plan state = invalid message
finish_replace none plan state =
    replaced plan (record state { plan_revision_count = state.plan_revision_count + 1 })

-- ExecutionPlanUpdater.replace
unfoldable pub replace :
    ExecutionPlan → ExecutionPlan → AgentRunState → AgentRunLimits → Replacement
replace current proposed state limits =
    if leb limits.max_plan_revisions state.plan_revision_count
    then value_error
    else (let updated = record proposed { revision = current.revision + 1 } in
        finish_replace
          (if nat_eq state.plan_revision_count 0
            then validate_initial updated
            else validate_transition current updated)
          updated state)

-- `step.status in {"COMPLETED", "SKIPPED"}`
abbrev pub finished : StepStatus → Bool
finished StepStatus.completed = true
finished StepStatus.skipped = true
finished _ = false

abbrev pub is_pending : StepStatus → Bool
is_pending StepStatus.pending = true
is_pending _ = false

-- How an observation changes the step that it belongs to.
settle : ObservationStatus → Observation → ExecutionStep → ExecutionStep
settle ObservationStatus.succeeded o s = record s {
  status = StepStatus.completed;
  failure_reason = none;
}
settle ObservationStatus.skipped o s = record s { status = StepStatus.skipped }
settle _ o s = record s { status = StepStatus.blocked; failure_reason = some o.summary }

unfoldable pub observe : Observation → ExecutionStep → ExecutionStep
unfolding settle
observe o s = settle o.status o (record s {
  execution_count = s.execution_count + 1;
  result_refs = from_keys (s.result_refs ++ o.artifact_refs);
})

-- Changes the step that `by_id` finds.
unfoldable pub update_step :
    String → (ExecutionStep → ExecutionStep) → List ExecutionStep → List ExecutionStep
unfolding by_id
update_step k f [] = []
update_step k f (s ∷ ss) =
    let rest = update_step k f ss in
    elim (by_id ss k) [ some _ ↦ s ∷ rest | none ↦ if s.step_id == k then f s ∷ ss else s ∷ ss ]

-- `all(steps[dep].status in ... for dep in depends_on)`; `none` is a KeyError.
unfoldable pub dependencies_done : List ExecutionStep → List String → Option Bool
unfolding by_id
dependencies_done steps [] = some true
dependencies_done steps (d ∷ ds) = elim (by_id steps d) [
  | none ↦ none
  | some s ↦ if finished s.status then dependencies_done steps ds else some false
]

abbrev choose : Option Bool → String → Option (Option String) → Option (Option String)
choose none k later = none
choose (some true) k later = some (some k)
choose (some false) k later = later

-- The first pending step whose dependencies are done; the outer `none` is a KeyError.
unfoldable pub next_step : List ExecutionStep → List ExecutionStep → Option (Option String)
next_step steps [] = some none
next_step steps (s ∷ ss) =
    let later = next_step steps ss in
    if is_pending s.status
    then choose (dependencies_done steps s.depends_on) s.step_id later
    else later

abbrev pub with_next : ExecutionPlan → Option (Option String) → Option ExecutionPlan
with_next plan none = none
with_next plan (some next) = some (record plan { current_step_id = next })

unfoldable pub advance :
    ExecutionPlan → Observation → String → Option ExecutionStep → Option ExecutionPlan
advance plan o k none = some plan
advance plan o k (some _) =
    let steps = update_step k (observe o) plan.steps in
    with_next (record plan { steps = steps }) (next_step steps steps)

unfoldable pub on_step : ExecutionPlan → Observation → Option String → Option ExecutionPlan
on_step plan o none = some plan
on_step plan o (some k) = if truthy k then advance plan o k (by_id plan.steps k) else some plan

-- ExecutionPlanUpdater.apply_observation; `none` is a KeyError.
unfoldable pub apply_observation : ExecutionPlan → Observation → Option ExecutionPlan
apply_observation plan o = on_step plan o o.plan_step_id

abbrev same_list : List String → List String → Bool
same_list [] [] = true
same_list (x ∷ xs) (y ∷ ys) = x == y && same_list xs ys
same_list _ _ = false

unfoldable pub same_signature : Observation → Observation → Bool
same_signature a b =
    a.action_type == b.action_type
    && a.summary == b.summary
    && same_list a.artifact_refs b.artifact_refs
    && same_list a.produced_workspace_keys b.produced_workspace_keys

-- ProgressDetector.made_progress
unfoldable pub made_progress : Observation → List Observation → Bool
unfolding same_signature
made_progress o previous = all (λ item. not (same_signature o item)) previous
