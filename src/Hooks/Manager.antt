-- ===== src/Hooks/Manager.antt =====
-- HookManager.execute_operation of agent/hooks/hook_manager.py. The hooks, in their order, and the
-- operation that is executed are parameters; they may change a state `W`.
pub mod Outcomes
pub mod Blocked
use sql_self_healing_agent.Prelude.{
  String, Bool, true, false, Option, none, some, List, [], ◌∷◌, text_or, if◌then◌else◌,
}
use sql_self_healing_agent.Hooks.Models.{
  OperationContext, OperationStatus, HookAction, HookDecision,
}

-- The exceptions that the manager tells apart: TimeoutError, HookBlockedError with its reason code,
-- and any other, by the name of its type.
pub data Exception : Type 0 where
  timeout_error : Exception
  hook_blocked : String → Exception
  other_exception : String → Exception

pub data Answer (T : Type 0) : Type 0 where
  ok : T → Answer T
  raises : Exception → Answer T

-- A hook of agent/hooks/base.py. An exception of `after` is ignored; the state it leaves is kept.
pub record Hook (W : Type 0) : Type 0 where
  pub applies_to : OperationContext → Bool
  pub before : OperationContext → W → W × Answer HookDecision
  pub after : OperationContext → W → W

-- The hooks that have run, the last first, and how the `before` phase ended.
pub record Started (W : Type 0) : Type 0 where
  pub executed : List (Hook W)
  pub state : W
  pub phase : Answer (Unit {0})

pub record Operated (W T : Type 0) : Type 0 where
  pub state : W
  pub operation : OperationContext
  pub answer : Answer T

abbrev pub status_of : Exception → OperationStatus
status_of timeout_error = OperationStatus.timeout
status_of (hook_blocked _) = OperationStatus.before_blocked
status_of (other_exception _) = OperationStatus.failed

abbrev pub code_of : Exception → String
code_of timeout_error = "OPERATION_TIMEOUT"
code_of (hook_blocked code) = code
code_of (other_exception name) = name

-- `decision.reason_code or "HOOK_BLOCKED"`
abbrev pub block_code : HookDecision → String
block_code d = text_or d.reason_code "HOOK_BLOCKED"

module _ {W : Type 0} where
  -- After the hook `h`: an exception ends the phase before `h` counts as executed; a BLOCK after.
  unfoldable pub decide :
      (List (Hook W) → W → Started W) → Hook W → List (Hook W) → W × Answer HookDecision → Started W
  decide rest h executed (w, raises e) = record { executed = executed; state = w; phase = raises e }
  decide rest h executed (w, ok d) = elim d.action [
    | HookAction.block ↦ record {
      executed = h ∷ executed;
      state = w;
      phase = raises (hook_blocked (block_code d));
    }
    | HookAction.proceed ↦ rest (h ∷ executed) w
  ]

  -- The loop over the hooks
  unfoldable pub run_before : OperationContext → List (Hook W) → List (Hook W) → W → Started W
  run_before o [] executed w = record { executed = executed; state = w; phase = ok tt }
  run_before o (h ∷ hs) executed w =
      let entered = decide (run_before o hs) h executed (h.before o w) in
      let skipped = run_before o hs executed w in if h.applies_to o then entered else skipped

  -- The `finally` clause: the last hook that ran is the first to be told
  unfoldable pub run_after : OperationContext → List (Hook W) → W → W
  run_after o [] w = w
  run_after o (h ∷ hs) w = run_after o hs (h.after o w)

  module _ {T : Type 0} (summary : T → String) (now : String) where
    conclude : OperationContext → List (Hook W) → W × Answer T → Operated W T
    unfolding run_after
    conclude o executed (w, ok t) =
        let o' = record o {
          status = OperationStatus.succeeded;
          output_summary = some (summary t);
          finished_at = some now;
        } in
        record { state = run_after o' executed w; operation = o'; answer = ok t }
    conclude o executed (w, raises e) =
        let o' = record o {
          status = status_of e;
          error_code = some (code_of e);
          finished_at = some now;
        } in
        record { state = run_after o' executed w; operation = o'; answer = raises e }

    after_start :
        OperationContext → (W → W × Answer T) → Answer (Unit {0}) → List (Hook W) → W → Operated W T
    unfolding conclude
    after_start o call (ok _) executed w = conclude o executed (call w)
    after_start o call (raises e) executed w = conclude o executed (w, raises e)

    -- HookManager.execute_operation
    unfoldable pub execute_operation :
        List (Hook W) → OperationContext → (W → W × Answer T) → W → Operated W T
    unfolding after_start
    execute_operation hooks operation call w =
        let o = record operation { status = OperationStatus.running } in
        let started = run_before o hooks [] w in
        after_start o call started.phase started.executed started.state
