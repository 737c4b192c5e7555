-- ===== src/Gates/Output.antt =====
-- OutputContractGate: output_contract_gate.py of agent/gates.
use sql_self_healing_agent.Prelude.{
  Bool, true, false, not, ◌||◌, none, List, [], ◌∷◌, ◌==◌, any, is_blank, if◌then◌else◌,
}
use sql_self_healing_agent.Core.{RiskLevel}
use sql_self_healing_agent.Gates.Models.{
  Env, Decision, GateRequest, GateResult, stops, refusal, result,
}

abbrev pub blocking_risk : Bool → RiskLevel → Bool
blocking_risk allow_medium_risk RiskLevel.low = false
blocking_risk allow_medium_risk RiskLevel.medium = not allow_medium_risk
blocking_risk allow_medium_risk RiskLevel.high = true
blocking_risk allow_medium_risk RiskLevel.blocked = true

abbrev pub blocks_output : Bool → GateResult → Bool
blocks_output allow_medium_risk item =
    stops item.decision || blocking_risk allow_medium_risk item.risk_level

module _ (env : Env) where
  unfoldable pub output_gate : GateRequest → List GateResult → GateResult
  unfolding result
  output_gate request previous =
      if any (blocks_output request.allow_medium_risk) previous
      then result env "OutputContractGate" request.candidate_sql Decision.human_required
          RiskLevel.high (refusal "PRIOR_GATE_NOT_PASS" "前置 Gate 未全部通过。" "ALL_PRIOR_GATES_PASS")
      else if is_blank request.candidate_sql
          || any (λ item. not (item.candidate_hash == env.sha256 request.candidate_sql)) previous
      then result env "OutputContractGate" request.candidate_sql Decision.human_required
          RiskLevel.high
          (refusal "OUTPUT_CONTRACT_INVALID" "候选为空或候选哈希与前置 Gate 不一致。" "CANDIDATE_HASH_STABLE")
      else result env "OutputContractGate" request.candidate_sql Decision.pass RiskLevel.low
          (record {
            code = none;
            message = none;
            failed = [];
            checked = "CANDIDATE_NON_EMPTY" ∷ "CANDIDATE_HASH_STABLE" ∷ "PRIOR_GATES_PASS" ∷ [];
            evidence = [];
          })
