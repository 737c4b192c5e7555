-- ===== src/Agent/Updater/Selection.antt =====
-- Which step `apply_observation` (agent/planning/execution_plan_updater.py) makes current.
use sql_self_healing_agent.Prelude.{
  String, ◌≡◌, refl, Bool, true, false, Option, none, some, List, [], ◌∷◌, ◌==◌, contains, All,
  arith, Bool-cases, Option-cases, inl, inr, In, here, there, if◌then◌else◌, ◌⊎◌, ap,
}
use sql_self_healing_agent.Agent.Models.{ExecutionStep, StepStatus}
use sql_self_healing_agent.Agent.Planning.{step_ids, by_id}
use sql_self_healing_agent.Agent.Updater.{finished, is_pending, dependencies_done, next_step}

contains-by_id :
    (ss : List ExecutionStep) (k : String)
    → contains k (step_ids ss) ≡ true
    → (s : ExecutionStep) × (by_id ss k ≡ some s)
unfolding by_id
contains-by_id [] k h = cc
contains-by_id (t ∷ ss) k h = elim (Option-cases (by_id ss k)) [
  | inr (later, e) ↦ (later, ground (arith, e))
  | inl e ↦ elim (Bool-cases (t.step_id == k)) [
    | inl same ↦ (t, ground (arith, e, same))
    | inr other ↦ let (s, e') = contains-by_id ss k (ground arith) in cc
  ]
]

-- The two statuses of a step that the steps after it need not wait for.
abbrev pub IsDone : StepStatus → Type 0
IsDone status = (status ≡ StepStatus.completed) ⊎ (status ≡ StepStatus.skipped)

finished-IsDone : (status : StepStatus) → finished status ≡ true → IsDone status
finished-IsDone StepStatus.completed h = inl refl
finished-IsDone StepStatus.skipped h = inr refl
finished-IsDone StepStatus.pending h = cc
finished-IsDone StepStatus.in_progress h = cc
finished-IsDone StepStatus.blocked h = cc

IsDone-finished : (status : StepStatus) → IsDone status → finished status ≡ true
IsDone-finished status h = elim h [ inl e ↦ ap finished e | inr e ↦ ap finished e ]

is_pending_iff : (status : StepStatus) → is_pending status ≡ true → status ≡ StepStatus.pending
is_pending_iff StepStatus.pending h = refl
is_pending_iff StepStatus.completed h = cc
is_pending_iff StepStatus.skipped h = cc
is_pending_iff StepStatus.in_progress h = cc
is_pending_iff StepStatus.blocked h = cc

module _ (steps : List ExecutionStep) where
  -- All the steps that a list of identifiers names are COMPLETED or SKIPPED.
  abbrev pub Done : List String → Type 0
  Done [] = Unit
  Done (d ∷ ds) = ((s : ExecutionStep) × (by_id steps d ≡ some s) × IsDone s.status) × Done ds

  pub dependencies_done-total :
      (ds : List String)
      → All (λ d. contains d (step_ids steps) ≡ true) ds
      → (b : Bool) × (dependencies_done steps ds ≡ some b)
  unfolding dependencies_done
  dependencies_done-total [] h = (true, refl)
  dependencies_done-total (d ∷ ds) h =
      let (s, e) = contains-by_id steps d h.0 in
      let (b, rest) = dependencies_done-total ds h.1 in
      ((if finished s.status then b else false), ground (arith, e, rest))

  pub dependencies_done-Done : (ds : List String) → dependencies_done steps ds ≡ some true → Done ds
  unfolding dependencies_done
  dependencies_done-Done [] h = tt
  dependencies_done-Done (d ∷ ds) h = elim (Option-cases (by_id steps d)) [
    | inl e ↦ ground (arith, e)
    | inr (s, e) ↦ (
      (s, e, finished-IsDone s.status (ground (arith, e))),
      dependencies_done-Done ds (ground (arith, e)),
    )
  ]

  Done-dependencies_done : (ds : List String) → Done ds → dependencies_done steps ds ≡ some true
  unfolding dependencies_done
  Done-dependencies_done [] d = refl
  Done-dependencies_done (k ∷ ds) ((s, e, d), rest) =
      let f = IsDone-finished s.status d in ground (arith, e, f, Done-dependencies_done ds rest)

  -- A step that may be run now.
  pub record IsReady (s : ExecutionStep) : Type 0 where
    pub pending : s.status ≡ StepStatus.pending
    pub done : Done s.depends_on

  pub record Selected (among : List ExecutionStep) (k : String) : Type 0 where
    pub step : ExecutionStep
    pub member : In step among
    pub named : step.step_id ≡ k
    pub ready : IsReady step

  -- The step that is selected is one of those given, is PENDING, and each step that it depends on
  -- is COMPLETED or SKIPPED.
  pub next_step-Selected :
      (ss : List ExecutionStep) (k : String) → next_step steps ss ≡ some (some k) → Selected ss k
  unfolding next_step
  next_step-Selected [] k h = cc
  next_step-Selected (s ∷ ss) k h = elim (Bool-cases (is_pending s.status)) [
    | inr off ↦ later (next_step-Selected ss k (ground arith))
    | inl on ↦
        pick (dependencies_done steps s.depends_on) refl on (λ e. later (next_step-Selected ss k e))
  ]
    where
      later : Selected ss k → Selected (s ∷ ss) k
      later r = record { step = r.step; member = there r.member; named = r.named; ready = r.ready }

      pick :
          (o : Option Bool)
          → dependencies_done steps s.depends_on ≡ o
          → is_pending s.status ≡ true
          → (next_step steps ss ≡ some (some k) → Selected (s ∷ ss) k)
          → Selected (s ∷ ss) k
      pick none e on rest = ground (arith, e, on)
      pick (some true) e on rest = record {
        step = s;
        member = here refl;
        named = ground (arith, e, on);
        ready = record {
          pending = is_pending_iff s.status on;
          done = dependencies_done-Done s.depends_on e;
        };
      }
      pick (some false) e on rest = rest (ground (arith, e, on))

  -- No step is selected only if each of those given that is PENDING depends on a step that is
  -- neither COMPLETED nor SKIPPED.
  pub next_step-none :
      (ss : List ExecutionStep)
      → next_step steps ss ≡ some none
      → All (λ s. s.status ≡ StepStatus.pending → ¬ (Done s.depends_on)) ss
  unfolding next_step
  next_step-none [] h = tt
  next_step-none (s ∷ ss) h = (
    λ on d. pick (Done-dependencies_done s.depends_on d) (ap is_pending on),
    next_step-none ss (rest (dependencies_done steps s.depends_on) refl),
  )
    where
      pick : dependencies_done steps s.depends_on ≡ some true → is_pending s.status ≡ true → ⊥
      pick e on = ground (arith, e, on)

      rest :
          (o : Option Bool)
          → dependencies_done steps s.depends_on ≡ o
          → next_step steps ss ≡ some none
      rest o e = ground arith
