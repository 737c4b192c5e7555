-- ===== src/Gates/Aggregate.antt =====
-- aggregate_results of agent/gates/risk_aggregator.py; `none` is its ValueError.
pub mod Bounds
use sql_self_healing_agent.Prelude.{
  ℕ, String, Bool, true, false, ◌||◌, Option, none, some, List, [], ◌∷◌, ◌++◌, any, leb, map,
  from_keys, if◌then◌else◌,
}
use sql_self_healing_agent.Core.{RiskLevel}
use sql_self_healing_agent.Gates.Models.{Env, Decision, GateFeedback, GateResult}

-- _RISK_ORDER
abbrev pub risk_order : RiskLevel → ℕ
risk_order RiskLevel.low = 0
risk_order RiskLevel.medium = 1
risk_order RiskLevel.high = 2
risk_order RiskLevel.blocked = 3

-- `max` keeps the first of equal keys.
unfoldable pub max_risk : RiskLevel → List GateResult → RiskLevel
max_risk risk [] = risk
max_risk risk (item ∷ items) =
    max_risk (if leb (risk_order item.risk_level) (risk_order risk) then risk else item.risk_level)
      items

abbrev pub is_reject : GateResult → Bool
is_reject r = elim r.decision [ Decision.reject ↦ true | _ ↦ false ]

abbrev pub is_human : GateResult → Bool
is_human r = elim r.decision [ Decision.human_required ↦ true | _ ↦ false ]

abbrev pub is_warning : GateResult → Bool
is_warning r = elim r.decision [ Decision.pass_with_warning ↦ true | _ ↦ false ]

-- The ladder over the highest risk, and over which decisions occur.
unfoldable pub overall : Bool → RiskLevel → Bool → Bool → Bool → Decision
overall allow RiskLevel.blocked reject human warning = Decision.reject
overall allow RiskLevel.high reject human warning =
    if reject then Decision.reject else Decision.human_required
overall allow RiskLevel.medium reject human warning =
    if reject
    then Decision.reject
    else if human
    then Decision.human_required
    else if allow
    then Decision.pass_with_warning
    else Decision.human_required
overall allow RiskLevel.low reject human warning =
    if reject
    then Decision.reject
    else if human
    then Decision.human_required
    else if warning
    then Decision.pass_with_warning
    else Decision.pass

abbrev pub gather {ℓ} : {A : Type ℓ} → (GateResult → List A) → List GateResult → List A
gather f [] = []
gather f (r ∷ rs) = f r ++ gather f rs

unfoldable pub combine : Env → Bool → GateResult → List GateResult → GateResult
unfolding max_risk overall
combine env allow_medium_risk first others =
    let results = first ∷ others in
    let risk = max_risk first.risk_level others in
    record {
      decision =
          overall allow_medium_risk risk (any is_reject results) (any is_human results)
            (any is_warning results);
      risk_level = risk;
      gate_name = "GateRunner";
      candidate_hash = first.candidate_hash;
      feedback = gather (λ (r : GateResult). r.feedback) results;
      evidence_refs = from_keys (gather (λ (r : GateResult). r.evidence_refs) results);
      checked_invariants = from_keys (gather (λ (r : GateResult). r.checked_invariants) results);
      failed_invariants = from_keys (gather (λ (r : GateResult). r.failed_invariants) results);
      created_at = env.now;
    }

unfoldable pub aggregate_results : Env → Bool → List GateResult → Option GateResult
unfolding combine
aggregate_results env allow_medium_risk [] = none
aggregate_results env allow_medium_risk (first ∷ others) =
    some (combine env allow_medium_risk first others)
