-- ===== src/Hooks/Manager/Blocked.antt =====
-- A hook that blocks stops an operation (agent/hooks/hook_manager.py).
use sql_self_healing_agent.Prelude.{
  String, ◌≡◌, refl, sym, subst, ◌∙◌, true, some, List, [], ◌∷◌, ◌++◌,
}
use sql_self_healing_agent.Hooks.Models.{
  OperationContext, OperationStatus, HookAction, HookDecision,
}
use sql_self_healing_agent.Hooks.Manager.{
  Exception, hook_blocked, Answer, ok, raises, Hook, Started, Operated, block_code, decide,
  run_before, run_after, conclude, after_start, execute_operation,
}
use sql_self_healing_agent.Hooks.Manager.Outcomes.{Passes, Passes-run_before}

decide-block :
    {W : Type 0} (rest : List (Hook W) → W → Started W) (h : Hook W) (ex : List (Hook W)) (v : W)
    (d : HookDecision)
    → d.action ≡ HookAction.block
    → decide rest h ex (v, ok d)
      ≡ record { executed = h ∷ ex; state = v; phase = raises (hook_blocked (block_code d)) }
unfolding decide
decide-block rest h ex v d e = on d.action e
  where
    on :
        (a : HookAction)
        → a ≡ HookAction.block
        → elim a [
          | HookAction.block ↦ record {
            executed = h ∷ ex;
            state = v;
            phase = raises (hook_blocked (block_code d));
          }
          | HookAction.proceed ↦ rest (h ∷ ex) v
        ]
          ≡ record { executed = h ∷ ex; state = v; phase = raises (hook_blocked (block_code d)) }
    on HookAction.block e = refl
    on HookAction.proceed e = cc e

run_before-blocked :
    {W : Type 0} (o : OperationContext) (front back executed : List (Hook W)) (h : Hook W)
    (w before v : W) (d : HookDecision)
    → Passes o front [] w executed before
    → h.applies_to o ≡ true
    → h.before o before ≡ (v, ok d)
    → d.action ≡ HookAction.block
    → run_before o (front ++ h ∷ back) [] w
      ≡ record { executed = h ∷ executed; state = v; phase = raises (hook_blocked (block_code d)) }
unfolding run_before
run_before-blocked o front back executed h w before v d pass on q e =
    Passes-run_before o front (h ∷ back) [] executed w before pass
    ∙ rw (on, q) (decide-block (run_before o back) h executed v d e)

after_blocked :
    {W T : Type 0} (summary : T → String) (now : String) (hooks : List (Hook W))
    (operation : OperationContext) (call : W → W × Answer T) (w : W) (started : Started W)
    (x : Exception)
    → run_before (record operation { status = OperationStatus.running }) hooks [] w ≡ started
    → started.phase ≡ raises x
    → execute_operation summary now hooks operation call w
      ≡ conclude summary now
          (record operation { status = OperationStatus.running })
          started.executed
          (started.state, raises x)
unfolding execute_operation after_start
after_blocked summary now hooks operation call w started x e p = rw (e, p) refl

-- A hook that applies and blocks, behind hooks that let the operation pass, stops it: the operation
-- is not called and no later hook runs; it ends BEFORE_BLOCKED with the hook's reason, and of the
-- hooks exactly those executed are told, the blocking one first.
pub execute_operation-blocked :
    {W T : Type 0} (summary : T → String) (now : String) (front back executed : List (Hook W))
    (h : Hook W) (operation : OperationContext) (call : W → W × Answer T) (w before v : W)
    (d : HookDecision)
    → Passes (record operation { status = OperationStatus.running }) front [] w executed before
    → h.applies_to (record operation { status = OperationStatus.running }) ≡ true
    → h.before (record operation { status = OperationStatus.running }) before ≡ (v, ok d)
    → d.action ≡ HookAction.block
    → let r = execute_operation summary now (front ++ h ∷ back) operation call w in
      (r.answer ≡ raises (hook_blocked (block_code d)))
      × (r.operation.status ≡ OperationStatus.before_blocked)
      × (r.operation.error_code ≡ some (block_code d))
      × (r.state ≡ run_after r.operation (h ∷ executed) v)
unfolding conclude
execute_operation-blocked {W} {T} summary now front back executed h operation call w before v d pass
      on q e =
    let o = record operation { status = OperationStatus.running } in
    subst
      (λ (r : Operated W T).
        (r.answer ≡ raises (hook_blocked (block_code d)))
        × (r.operation.status ≡ OperationStatus.before_blocked)
        × (r.operation.error_code ≡ some (block_code d))
        × (r.state ≡ run_after r.operation (h ∷ executed) v))
      (sym (
        after_blocked summary now (front ++ h ∷ back) operation call w
          (record {
            executed = h ∷ executed;
            state = v;
            phase = raises (hook_blocked (block_code d));
          })
          (hook_blocked (block_code d))
          (run_before-blocked o front back executed h w before v d pass on q e) refl))
      (refl, refl, refl, refl)
