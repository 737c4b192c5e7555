-- ===== src/Gates/Runner/Repairs.antt =====
-- A sequence of repair rounds (GateRunner.run_repair of agent/gates/gate_runner.py).
use sql_self_healing_agent.Prelude.{
  ◌+◌, ◌≤◌, String, ◌≡◌, refl, ap, ◌∙◌, ◌⊎◌, inl, inr, Bool, true, false, not, ◌||◌, Option, List,
  [], ◌∷◌, ◌++◌, All, In, here, there, leb, arith, Bool-cases,
}
use sql_self_healing_agent.Repair.Models.{PreReflectionResult}
use sql_self_healing_agent.Repair.Evaluator.{Reply}
use sql_self_healing_agent.Agent.Models.{AgentRunState}
use sql_self_healing_agent.Gates.Models.{Decision, GateRequest, GateResult}
use sql_self_healing_agent.Gates.Runner.{GateRunner, GateSet, run_request, run_repair}

-- The arguments of one call of `run_repair`
pub record RepairCall : Type 0 where
  pub request : GateRequest
  pub repaired_candidate_sql : String
  pub budget_available : Bool

pub record Repairs : Type 0 where
  pub runner : GateRunner
  pub run_state : AgentRunState
  pub verdicts : List GateResult

-- The verdict of a round that is not run
abbrev pub IsExhausted : GateResult → Type 0
IsExhausted r =
    (r.decision ≡ Decision.human_required) × (r.failed_invariants ≡ "GATE_REPAIR_BUDGET" ∷ [])

module _ {Tree : Type 0} (gates : GateSet Tree) (reply : Option (Reply PreReflectionResult)) where
  -- Calls of `run_repair` one after the other, on one runner and one run state
  unfoldable pub run_repairs : GateRunner → AgentRunState → List RepairCall → Repairs
  run_repairs runner state [] = record { runner = runner; run_state = state; verdicts = [] }
  run_repairs runner state (c ∷ cs) =
      let (next, counted, verdict) =
        run_repair gates reply runner c.request c.repaired_candidate_sql state c.budget_available in
      let rest = run_repairs next counted cs in
      record {
        runner = rest.runner;
        run_state = rest.run_state;
        verdicts = verdict ∷ rest.verdicts;
      }

  -- No gate has run.
  pub record NoRound (runner : GateRunner) (state : AgentRunState) (p : Repairs) : Type 0 where
    pub same_runner : p.runner ≡ runner
    pub same_state : p.run_state ≡ state
    pub exhausted : All IsExhausted p.verdicts

  -- The gates have run once, for one of the calls, which had budget: its verdict stands among
  -- verdicts of rounds that were not run, and the round is counted.
  pub record OneRound (state : AgentRunState) (calls : List RepairCall) (p : Repairs) : Type 0 where
    pub call : RepairCall
    pub member : In call calls
    pub had_budget : call.budget_available ≡ true
    pub unused : state.gate_repair_rounds ≡ 0
    pub before : List GateResult
    pub after : List GateResult
    pub verdicts :
        p.verdicts
        ≡ before
          ++ (run_request gates reply
              (record (call.request) { candidate_sql = call.repaired_candidate_sql })).1
            ∷ after
    pub none_before : All IsExhausted before
    pub none_after : All IsExhausted after
    pub of_call :
        p.runner
        ≡ (run_request gates reply
            (record (call.request) { candidate_sql = call.repaired_candidate_sql })).0
    pub counted : p.run_state ≡ record state { gate_repair_rounds = 1 }

  run_repair-IsExhausted :
      (runner : GateRunner) (state : AgentRunState) (c : RepairCall)
      → not c.budget_available || leb 1 state.gate_repair_rounds ≡ true
      → let (next, counted, verdict) =
          run_repair gates reply runner c.request c.repaired_candidate_sql state
            c.budget_available in
        (next ≡ runner) × (counted ≡ state) × IsExhausted verdict
  unfolding run_repair
  run_repair-IsExhausted runner state c h = rw h (refl, refl, (refl, refl))

  run_repair-runs :
      (runner : GateRunner) (state : AgentRunState) (c : RepairCall)
      → not c.budget_available || leb 1 state.gate_repair_rounds ≡ false
      → run_repair gates reply runner c.request c.repaired_candidate_sql state c.budget_available
        ≡ (
          (run_request gates reply
              (record (c.request) { candidate_sql = c.repaired_candidate_sql })).0,
          record state { gate_repair_rounds = state.gate_repair_rounds + 1 },
          (run_request gates reply
              (record (c.request) { candidate_sql = c.repaired_candidate_sql })).1,
        )
  unfolding run_repair
  run_repair-runs runner state c h = rw h refl

  run_repairs-NoRound :
      (runner : GateRunner) (state : AgentRunState) (cs : List RepairCall)
      → 1 ≤ state.gate_repair_rounds
      → NoRound runner state (run_repairs runner state cs)
  unfolding run_repairs
  run_repairs-NoRound runner state [] h = record {
    same_runner = refl;
    same_state = refl;
    exhausted = tt;
  }
  run_repairs-NoRound runner state (c ∷ cs) h =
      let (same_runner, same_state, refusal) =
        run_repair-IsExhausted runner state c (ground arith) in
      let rest = run_repairs-NoRound runner state cs h in
      rw (same_runner, same_state)
        (record {
          same_runner = rest.same_runner;
          same_state = rest.same_state;
          exhausted = (refusal, rest.exhausted);
        })

  -- The first call, which runs the gates, with the calls after it
  runs_first :
      (runner : GateRunner) (state : AgentRunState) (c : RepairCall) (cs : List RepairCall)
      → not c.budget_available || leb 1 state.gate_repair_rounds ≡ false
      → OneRound state (c ∷ cs) (run_repairs runner state (c ∷ cs))
  unfolding run_repairs
  runs_first runner state c cs h =
      let ran =
        run_request gates reply (record (c.request) { candidate_sql = c.repaired_candidate_sql }) in
      let counted : AgentRunState = record state {
        gate_repair_rounds = state.gate_repair_rounds + 1;
      } in
      let rest = run_repairs-NoRound ran.0 counted cs (omega arith) in
      let zero_before : state.gate_repair_rounds ≡ 0 = ground arith in
      rw (run_repair-runs runner state c h) (record {
        call = c;
        member = here refl;
        had_budget = ground arith;
        unused = zero_before;
        before = [];
        after = (run_repairs ran.0 counted cs).verdicts;
        verdicts = refl;
        none_before = tt;
        none_after = rest.exhausted;
        of_call = rest.same_runner;
        counted =
            rest.same_state ∙ ap (λ n. record state { gate_repair_rounds = n + 1 }) zero_before;
      })

  -- A call that is refused, with what the calls after it do
  refused_first :
      (runner : GateRunner) (state : AgentRunState) (c : RepairCall) (cs : List RepairCall)
      → not c.budget_available || leb 1 state.gate_repair_rounds ≡ true
      → NoRound runner state (run_repairs runner state cs)
        ⊎ OneRound state cs (run_repairs runner state cs)
      → NoRound runner state (run_repairs runner state (c ∷ cs))
        ⊎ OneRound state (c ∷ cs) (run_repairs runner state (c ∷ cs))
  unfolding run_repairs
  refused_first runner state c cs h rest =
      let exhausted =
        run_repair gates reply runner c.request c.repaired_candidate_sql state c.budget_available in
      let (same_runner, same_state, refusal) = run_repair-IsExhausted runner state c h in
      rw (same_runner, same_state)
        (elim rest [
          | inl none_run ↦ inl (record {
            same_runner = none_run.same_runner;
            same_state = none_run.same_state;
            exhausted = (refusal, none_run.exhausted);
          })
          | inr one ↦ inr (record {
            call = one.call;
            member = there one.member;
            had_budget = one.had_budget;
            unused = one.unused;
            before = exhausted.2 ∷ one.before;
            after = one.after;
            verdicts = ap (λ vs. exhausted.2 ∷ vs) one.verdicts;
            none_before = (refusal, one.none_before);
            none_after = one.none_after;
            of_call = one.of_call;
            counted = one.counted;
          })
        ])

  -- Over any sequence of calls of `run_repair` the gates run at most once. Either every call is
  -- refused with HUMAN_REQUIRED for GATE_REPAIR_BUDGET, and runner and run state are as before; or no
  -- round was counted before, one call, which had budget, is judged by `run_request` on the
  -- repaired text, all calls before and after it are refused, the runner is as that request leaves
  -- it, and exactly one round is counted.
  pub run_repairs-once :
      (runner : GateRunner) (state : AgentRunState) (calls : List RepairCall)
      → NoRound runner state (run_repairs runner state calls)
        ⊎ OneRound state calls (run_repairs runner state calls)
  unfolding run_repairs
  run_repairs-once runner state [] =
      inl (record { same_runner = refl; same_state = refl; exhausted = tt })
  run_repairs-once runner state (c ∷ cs) =
      elim (Bool-cases (not c.budget_available || leb 1 state.gate_repair_rounds)) [
        | inl refused ↦ refused_first runner state c cs refused (run_repairs-once runner state cs)
        | inr runs ↦ inr (runs_first runner state c cs runs)
      ]
