-- ===== src/Agent/Updater/Revisions.antt =====
-- What a replacement of the plan guarantees (agent/planning/execution_plan_updater.py).
use sql_self_healing_agent.Prelude.{
  ◌+◌, ◌≤◌, ◌<◌, String, ◌≡◌, refl, true, false, Option, none, some, List, [], ◌∷◌, ◌==◌, contains,
  arith, eq_iff, Bool-cases, Option-cases, inl, inr, nat_eq,
}
use sql_self_healing_agent.Agent.Models.{
  ExecutionStep, ExecutionPlan, AgentRunState, AgentRunLimits,
}
use sql_self_healing_agent.Agent.Planning.{
  step_ids, by_id, check_pair, check_steps, allowed_transition, validate_structure,
  validate_initial, validate_transition,
}
use sql_self_healing_agent.Agent.Planning.Structure.{IsWellFormed, validate_structure_iff}
use sql_self_healing_agent.Agent.Updater.{replaced, replace}

check_steps-each :
    (old new : List ExecutionStep) (ss : List ExecutionStep) (k : String)
    → check_steps old new ss ≡ none
    → contains k (step_ids ss) ≡ true
    → check_pair (by_id old k) (by_id new k) ≡ none
unfolding check_steps
check_steps-each old new [] k h m = cc
check_steps-each old new (s ∷ ss) k h m = elim (Bool-cases (s.step_id == k)) [
  | inl same ↦ rw (← (eq_iff s.step_id k).0 same) (ground arith)
  | inr other ↦ check_steps-each old new ss k (ground arith) (ground arith)
]

by_id-contains :
    (ss : List ExecutionStep) (k : String) (s : ExecutionStep)
    → by_id ss k ≡ some s
    → contains k (step_ids ss) ≡ true
unfolding by_id
by_id-contains [] k s h = cc
by_id-contains (t ∷ ss) k s h = elim (Option-cases (by_id ss k)) [
  | inl e ↦ ground (arith, e)
  | inr (later, e) ↦ ground (arith, by_id-contains ss k later e)
]

-- Step `k`, which is `s` in the old plan, is in the new one, with a status it may move to.
pub record Kept (old new : ExecutionPlan) (k : String) (s : ExecutionStep) : Type 0 where
  pub step : ExecutionStep
  pub at_id : by_id new.steps k ≡ some step
  pub moves : allowed_transition s.status step.status ≡ true

validate_transition-Kept :
    (old new : ExecutionPlan) (k : String) (s : ExecutionStep)
    → validate_transition old new ≡ none
    → by_id old.steps k ≡ some s
    → Kept old new k s
validate_transition-Kept old new k s h e = on (by_id new.steps k) refl
  where
    checked : check_pair (by_id old.steps k) (by_id new.steps k) ≡ none
    checked =
        check_steps-each old.steps new.steps old.steps k
          (unfold validate_transition in ground arith) (by_id-contains old.steps k s e)

    on : (n : Option ExecutionStep) → by_id new.steps k ≡ n → Kept old new k s
    on none en = cc (rw (e, en) at checked)
    on (some n) en =
        let pair : check_pair (some s) (some n) ≡ none = rw (e, en) at checked in
        record { step = n; at_id = en; moves = ground (arith, pair) }

structure_of_transition :
    (old new : ExecutionPlan) → validate_transition old new ≡ none → validate_structure new ≡ none
unfolding validate_transition
structure_of_transition old new h = ground arith

module _ (current proposed : ExecutionPlan) (state : AgentRunState) (limits : AgentRunLimits)
    (plan : ExecutionPlan) (next : AgentRunState)
    (done : replace current proposed state limits ≡ replaced plan next) where
  replace-checks :
      (nat_eq state.plan_revision_count 0 ≡ true → validate_initial plan ≡ none)
      × (nat_eq state.plan_revision_count 0 ≡ false → validate_transition current plan ≡ none)
  unfolding replace
  replace-checks = (λ z. ground arith, λ z. ground arith)

  structure_checked : validate_structure plan ≡ none
  structure_checked = elim (Bool-cases (nat_eq state.plan_revision_count 0)) [
    | inl first ↦ unfold validate_initial in replace-checks.0 first
    | inr later ↦ structure_of_transition current plan (replace-checks.1 later)
  ]

  -- A plan that `replace` returns is well-formed, its revision is one more than that of the current
  -- plan, and the count of revisions has gone up by one and is within the limit.
  pub replace_sound :
      IsWellFormed plan
      × (plan.revision ≡ current.revision + 1)
      × (next.plan_revision_count ≡ state.plan_revision_count + 1)
      × (next.plan_revision_count ≤ limits.max_plan_revisions)
  unfolding replace
  replace_sound =
      ((validate_structure_iff plan).0 structure_checked, ground arith, ground arith, ground arith)

  -- From the second replacement on, a step of the current plan is a step of the new plan, with a
  -- status to which the table of transitions lets its status go.
  pub replace-keeps_steps :
      (k : String) (s : ExecutionStep)
      → 0 < state.plan_revision_count
      → by_id current.steps k ≡ some s
      → Kept current plan k s
  replace-keeps_steps k s later e =
      validate_transition-Kept current plan k s (replace-checks.1 (ground arith)) e
