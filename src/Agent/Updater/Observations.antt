-- ===== src/Agent/Updater/Observations.antt =====
-- An observation keeps a plan well-formed (agent/planning/execution_plan_updater.py).
use sql_self_healing_agent.Prelude.{
  String, ◌≡◌, refl, sym, ap, ◌∙◌, subst, Bool, true, false, Option, none, some, List, [], ◌∷◌, any,
  is_empty, contains, arith, eq_iff, Bool-cases, Option-cases, inl, inr, In, here, there, truthy,
  if◌then◌else◌,
}
use sql_self_healing_agent.Agent.Models.{Observation, ExecutionStep, ExecutionPlan}
use sql_self_healing_agent.Agent.Graph.Spec.{Closed, Distinct, IsAcyclic}
use sql_self_healing_agent.Agent.Planning.{
  step_ids, by_id, graph_of, executes_sql, lacks_tool, lacks_request, current_missing,
}
use sql_self_healing_agent.Agent.Planning.Structure.{IsWellFormed, nodes-graph_of}
use sql_self_healing_agent.Agent.Updater.{
  is_pending, observe, update_step, next_step, advance, on_step, apply_observation,
}
use sql_self_healing_agent.Agent.Updater.Selection.{next_step-Selected, dependencies_done-total}

module _ (o : Observation) where
  abbrev changed : String → List ExecutionStep → List ExecutionStep
  changed k steps = update_step k (observe o) steps

  step_ids-changed : (k : String) (ss : List ExecutionStep) → step_ids (changed k ss) ≡ step_ids ss
  unfolding update_step observe
  step_ids-changed k [] = refl
  step_ids-changed k (s ∷ ss) = ground (arith, step_ids-changed k ss)

  graph_of-changed : (k : String) (ss : List ExecutionStep) → graph_of (changed k ss) ≡ graph_of ss
  unfolding update_step observe
  graph_of-changed k [] = refl
  graph_of-changed k (s ∷ ss) = ground (arith, graph_of-changed k ss)

  any-changed :
      (p : ExecutionStep → Bool) (k : String) (ss : List ExecutionStep)
      → ((s : ExecutionStep) → p (observe o s) ≡ p s)
      → any p (changed k ss) ≡ any p ss
  unfolding update_step
  any-changed p k [] same = refl
  any-changed p k (s ∷ ss) same = ground (arith, any-changed p k ss same, same s)

  executes-observe : (s : ExecutionStep) → executes_sql (observe o s) ≡ executes_sql s
  unfolding observe executes_sql
  executes-observe s = ground arith

  lacks_tool-observe : (s : ExecutionStep) → lacks_tool (observe o s) ≡ lacks_tool s
  unfolding observe
  lacks_tool-observe s = ground arith

  lacks_request-observe : (s : ExecutionStep) → lacks_request (observe o s) ≡ lacks_request s
  unfolding observe
  lacks_request-observe s = ground arith

  next_step-total :
      (all ss : List ExecutionStep)
      → Closed (graph_of all) (graph_of ss)
      → (k : Option String) × (next_step all ss ≡ some k)
  unfolding next_step
  next_step-total all [] c = (none, refl)
  next_step-total all (s ∷ ss) c =
      let (b, e) = dependencies_done-total all s.depends_on (rw (nodes-graph_of all) at c.0) in
      let (k, rest) = next_step-total all ss c.1 in
      (
        (if is_pending s.status then (if b then some s.step_id else k) else k),
        ground (arith, e, rest),
      )

  In-contains :
      (s : ExecutionStep) (k : String) (ss : List ExecutionStep)
      → In s ss
      → s.step_id ≡ k
      → contains k (step_ids ss) ≡ true
  In-contains s k [] m n = elim m [ ]
  In-contains s k (t ∷ ss) (here e) n =
      let same : t.step_id ≡ k = ap (λ (x : ExecutionStep). x.step_id) (sym e) ∙ n in
      ground (arith, (eq_iff t.step_id k).1 same)
  In-contains s k (t ∷ ss) (there m) n = ground (arith, In-contains s k ss m n)

  -- What an observation guarantees of the plan that it is applied to.
  pub record Observed (plan plan' : ExecutionPlan) : Type 0 where
    pub well_formed : IsWellFormed plan'
    pub same_steps : step_ids plan'.steps ≡ step_ids plan.steps
    pub same_graph : graph_of plan'.steps ≡ graph_of plan.steps
    pub same_revision : plan'.revision ≡ plan.revision

  unchanged : (plan : ExecutionPlan) → IsWellFormed plan → Observed plan plan
  unchanged plan w = record {
    well_formed = w;
    same_steps = refl;
    same_graph = refl;
    same_revision = refl;
  }

  current_is_step :
      (ss : List ExecutionStep) (next : Option String)
      → next_step ss ss ≡ some next
      → current_missing next ss ≡ false
  current_is_step ss none e = refl
  current_is_step ss (some k) e =
      let chosen = next_step-Selected ss ss k e in
      ground (arith, In-contains chosen.step k ss chosen.member chosen.named)

  is_empty-changed : (k : String) (ss : List ExecutionStep) → is_empty (changed k ss) ≡ is_empty ss
  unfolding update_step
  is_empty-changed k [] = refl
  is_empty-changed k (s ∷ ss) = ground arith

  advance-Observed :
      (plan : ExecutionPlan) (k : String) (s : ExecutionStep)
      → IsWellFormed plan
      → (plan' : ExecutionPlan) × (advance plan o k (some s) ≡ some plan') × Observed plan plan'
  unfolding advance
  advance-Observed plan k s w =
      let ss : List ExecutionStep = changed k plan.steps in
      let graph : graph_of ss ≡ graph_of plan.steps = graph_of-changed k plan.steps in
      let closed : Closed (graph_of ss) (graph_of ss) =
        subst (λ g. Closed g g) (sym graph) w.closed in
      let (next, e) = next_step-total ss ss closed in
      (
        record plan { steps = ss; current_step_id = next },
        rw e,
        record {
          well_formed = record {
            not_empty = is_empty-changed k plan.steps ∙ w.not_empty;
            distinct = subst Distinct (sym (step_ids-changed k plan.steps)) w.distinct;
            closed = closed;
            acyclic = subst IsAcyclic (sym graph) w.acyclic;
            harmless = any-changed executes_sql k plan.steps executes-observe ∙ w.harmless;
            tools_named = any-changed lacks_tool k plan.steps lacks_tool-observe ∙ w.tools_named;
            requests_given =
                any-changed lacks_request k plan.steps lacks_request-observe ∙ w.requests_given;
            current_exists = current_is_step ss next e;
          };
          same_steps = step_ids-changed k plan.steps;
          same_graph = graph;
          same_revision = refl;
        },
      )

  on_step-Observed :
      (plan : ExecutionPlan) (k : Option String)
      → IsWellFormed plan
      → (plan' : ExecutionPlan) × (on_step plan o k ≡ some plan') × Observed plan plan'
  unfolding on_step
  on_step-Observed plan none w = (plan, refl, unchanged plan w)
  on_step-Observed plan (some k) w = elim (Bool-cases (truthy k)) [
    | inr off ↦ (plan, rw off, unchanged plan w)
    | inl on ↦ elim (Option-cases (by_id plan.steps k)) [
      | inl e ↦ (plan, rw (on, e) (unfold advance in refl), unchanged plan w)
      | inr (s, e) ↦
          let (plan', run, ok) = advance-Observed plan k s w in (plan', rw (on, e) run, ok)
    ]
  ]

  -- Applying an observation to a well-formed plan raises nothing, and gives a well-formed plan with
  -- the same step identifiers in the same order, the same dependencies and the same revision.
  pub apply_observation-Observed :
      (plan : ExecutionPlan)
      → IsWellFormed plan
      → (plan' : ExecutionPlan) × (apply_observation plan o ≡ some plan') × Observed plan plan'
  unfolding apply_observation
  apply_observation-Observed plan w = on_step-Observed plan o.plan_step_id w
