-- ===== src/Hooks/Standard.antt =====
-- The hooks of a run, in their order, as RepairAgentService._build_run_components
-- (orchestrator/repair_agent_service.py) makes them: TraceHook, BudgetHook, SafetyHook,
-- CompressionAdapterHook and RetryAdapterHook of agent/hooks. The trace writer and the compaction
-- are parameters that change a state `V`.
use sql_self_healing_agent.Prelude.{
  String, ◌≡◌, ap, ◌∙◌, sym, subst, Bool, true, false, Option, none, some, List, [], ◌∷◌,
}
use sql_self_healing_agent.Hooks.Models.{
  OperationType, OperationContext, OperationStatus, HookDecision,
}
use sql_self_healing_agent.Hooks.Budget.{
  BudgetHook, proceed_decision, block_decision, budget_before, budget_after,
}
use sql_self_healing_agent.Hooks.Budget.Room.{HasRoom, budget_before-proceed_iff}
use sql_self_healing_agent.Hooks.Safety.{safety_before}
use sql_self_healing_agent.Hooks.Safety.Policy.{IsSafe, safety_before-proceed_iff}
use sql_self_healing_agent.Hooks.Manager.{Answer, ok, raises, Hook, execute_operation}
use sql_self_healing_agent.Hooks.Manager.Outcomes.{
  Passes, skips, lets_pass, execute_operation-value,
}

-- The writer of the trace: `emit` when an operation starts, and when it is finished.
pub record Tracer (V : Type 0) : Type 0 where
  pub started : OperationContext → V → V × Answer (Unit {0})
  pub finished : OperationContext → V → V

abbrev always : OperationContext → Bool
always o = true

-- CompressionAdapterHook.applies_to
abbrev wants_compaction : OperationType → Bool
wants_compaction OperationType.llm_call = true
wants_compaction OperationType.sub_agent_run = true
wants_compaction _ = false

-- RetryAdapterHook.applies_to
abbrev wants_retry : OperationType → Bool
wants_retry OperationType.tool_call = false
wants_retry _ = true

module _ {V : Type 0} (tracer : Tracer V) (compact : Option (V → V × Answer (Unit {0}))) where
  abbrev traced : BudgetHook → V × Answer (Unit {0}) → (BudgetHook × V) × Answer HookDecision
  traced b (v, ok _) = ((b, v), ok proceed_decision)
  traced b (v, raises e) = ((b, v), raises e)

  abbrev trace_hook : Hook (BudgetHook × V)
  trace_hook = record {
    applies_to = always;
    before = λ o (b, v). traced b (tracer.started o v);
    after = λ o (b, v). (b, tracer.finished o v);
  }

  abbrev budget_hook : Hook (BudgetHook × V)
  budget_hook = record {
    applies_to = always;
    before = λ o (b, v). ((b, v), ok (budget_before b o));
    after = λ o (b, v). (budget_after b o, v);
  }

  abbrev safety_hook : Hook (BudgetHook × V)
  safety_hook = record {
    applies_to = always;
    before = λ o w. (w, ok (safety_before o));
    after = λ o w. w;
  }

  abbrev compacted : BudgetHook → V × Answer (Unit {0}) → (BudgetHook × V) × Answer HookDecision
  compacted b (v, ok _) = ((b, v), ok proceed_decision)
  compacted b (v, raises e) = ((b, v), ok (block_decision "CONTEXT_COMPACTION_FAILED" none))

  abbrev compress :
      Option (V → V × Answer (Unit {0})) → BudgetHook × V → (BudgetHook × V) × Answer HookDecision
  compress none (b, v) = ((b, v), ok proceed_decision)
  compress (some f) (b, v) = compacted b (f v)

  abbrev compression_hook : Hook (BudgetHook × V)
  compression_hook = record {
    applies_to = λ o. wants_compaction o.operation_type;
    before = λ o w. compress compact w;
    after = λ o w. w;
  }

  abbrev retry_hook : Hook (BudgetHook × V)
  retry_hook = record {
    applies_to = λ o. wants_retry o.operation_type;
    before = λ o w. (w, ok proceed_decision);
    after = λ o w. w;
  }

  unfoldable pub standard_hooks : List (Hook (BudgetHook × V))
  standard_hooks = trace_hook ∷ budget_hook ∷ safety_hook ∷ compression_hook ∷ retry_hook ∷ []

  traced-keeps :
      (b b' : BudgetHook) (v' : V) (d : HookDecision) (p : V × Answer (Unit {0}))
      → traced b p ≡ ((b', v'), ok d)
      → b ≡ b'
  traced-keeps b b' v' d (v, ok _) e = cc e
  traced-keeps b b' v' d (v, raises x) e = cc e

  -- Hooks of a run that let an operation pass have found it safe, with room in the budget.
  Passes-checked :
      (o : OperationContext) (b : BudgetHook) (v : V) (executed : List (Hook (BudgetHook × V)))
      (w : BudgetHook × V)
      → Passes o standard_hooks [] (b, v) executed w
      → HasRoom b o.operation_type × IsSafe o
  unfolding standard_hooks
  Passes-checked o b v executed w (skips off rest) = cc off
  Passes-checked o b v executed w (lets_pass on q p (skips off rest)) = cc off
  Passes-checked o b v executed w (lets_pass on q p (lets_pass on' q' p' (skips off rest))) = cc off
  Passes-checked o b v executed w
        (lets_pass {v = (b', v')} {d = d} on q p
          (lets_pass {d = d'} on' q' p' (lets_pass {d = d''} on'' q'' p'' rest))) =
      let same : b ≡ b' = traced-keeps b b' v' d (tracer.started o v) q in
      let budget : budget_before b' o ≡ d' = cc q' in
      let safety : safety_before o ≡ d'' = cc q'' in
      (
        subst (λ x. HasRoom x o.operation_type) (sym same)
            ((budget_before-proceed_iff b' o).0 (ap (λ x. x.action) budget ∙ p')),
        (safety_before-proceed_iff o).0 (ap (λ x. x.action) safety ∙ p''),
      )

  -- An operation under the hooks of a run returns a value only if, when it started, its budget had
  -- room for it, and it was safe: with an allowed caller, an owner, and no forbidden input.
  pub execute_operation-checked :
      {T : Type 0} (summary : T → String) (now : String) (o : OperationContext)
      (call : BudgetHook × V → (BudgetHook × V) × Answer T) (b : BudgetHook) (v : V) (t : T)
      → (execute_operation summary now standard_hooks o call (b, v)).answer ≡ ok t
      → HasRoom b o.operation_type × IsSafe (record o { status = OperationStatus.running })
  execute_operation-checked summary now o call b v t e =
      let (executed, before, _, passed, _) =
        execute_operation-value summary now standard_hooks o call (b, v) t e in
      Passes-checked (record o { status = OperationStatus.running }) b v executed before passed
