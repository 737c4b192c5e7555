-- ===== src/Gates/Aggregate/Bounds.antt =====
-- What an aggregated verdict (agent/gates/risk_aggregator.py) says of those it is made from.
use sql_self_healing_agent.Prelude.{
  ℕ, ◌≤◌, ◌≡◌, ◌↔◌, refl, Bool, true, false, some, List, [], ◌∷◌, any, leb, arith, All,
  if◌then◌else◌,
}
use sql_self_healing_agent.Core.{RiskLevel}
use sql_self_healing_agent.Gates.Models.{Env, Decision, GateResult}
use sql_self_healing_agent.Gates.Aggregate.{
  risk_order, max_risk, is_reject, is_human, is_warning, overall, aggregate_results,
}

-- A verdict that has no reservation.
abbrev pub IsClear : GateResult → Type 0
IsClear r = (r.decision ≡ Decision.pass) × (r.risk_level ≡ RiskLevel.low)

-- How strict a decision is.
abbrev pub strictness : Decision → ℕ
strictness Decision.pass = 0
strictness Decision.pass_with_warning = 1
strictness Decision.human_required = 2
strictness Decision.reject = 3

-- The strictness that a risk demands: REJECT for BLOCKED, HUMAN_REQUIRED for HIGH, and for MEDIUM a
-- warning where it is allowed and HUMAN_REQUIRED where it is not.
abbrev pub demanded : Bool → RiskLevel → ℕ
demanded allow RiskLevel.low = 0
demanded allow RiskLevel.medium = if allow then 1 else 2
demanded allow RiskLevel.high = 2
demanded allow RiskLevel.blocked = 3

abbrev pub AtMost : RiskLevel → GateResult → Type 0
AtMost risk r = risk_order r.risk_level ≤ risk_order risk

max_risk-ge_start :
    (risk : RiskLevel) (rs : List GateResult) → risk_order risk ≤ risk_order (max_risk risk rs)
unfolding max_risk
max_risk-ge_start risk [] = omega arith
max_risk-ge_start risk (r ∷ rs) = ground (
  arith,
  max_risk-ge_start (if leb (risk_order r.risk_level) (risk_order risk) then risk else r.risk_level)
      rs,
)

All-weaken :
    (a b : RiskLevel) (rs : List GateResult)
    → risk_order a ≤ risk_order b
    → All (AtMost a) rs
    → All (AtMost b) rs
All-weaken a b [] h all = tt
All-weaken a b (r ∷ rs) h all = (omega arith, All-weaken a b rs h all.1)

max_risk-ge : (risk : RiskLevel) (rs : List GateResult) → All (AtMost (max_risk risk rs)) rs
unfolding max_risk
max_risk-ge risk [] = tt
max_risk-ge risk (r ∷ rs) =
    let next : RiskLevel =
      if leb (risk_order r.risk_level) (risk_order risk) then risk else r.risk_level in
    (ground (arith, max_risk-ge_start next rs), max_risk-ge next rs)

-- A verdict that is no more severe than another, in its risk and in its decision
abbrev pub IsCovered : Bool → GateResult → GateResult → Type 0
IsCovered allow r v =
    (risk_order v.risk_level ≤ risk_order r.risk_level)
    × (strictness v.decision ≤ strictness r.decision)
    × (demanded allow v.risk_level ≤ strictness r.decision)

demanded_mono :
    (allow : Bool) (a b : RiskLevel)
    → risk_order a ≤ risk_order b
    → demanded allow a ≤ demanded allow b
demanded_mono allow RiskLevel.low b h = omega arith
demanded_mono allow RiskLevel.medium b h = ground arith
demanded_mono allow RiskLevel.high b h = ground arith
demanded_mono allow RiskLevel.blocked b h = ground arith

overall_strict :
    (allow : Bool) (risk : RiskLevel) (reject human warning : Bool)
    → let d = strictness (overall allow risk reject human warning) in
      (reject ≡ true → 3 ≤ d)
      × (human ≡ true → 2 ≤ d)
      × (warning ≡ true → 1 ≤ d)
      × (demanded allow risk ≤ d)
unfolding overall
overall_strict allow risk reject human warning =
    (λ h. ground arith, λ h. ground arith, λ h. ground arith, ground arith)

decision_covered :
    (r : GateResult) (n : ℕ)
    → (is_reject r ≡ true → 3 ≤ n)
    → (is_human r ≡ true → 2 ≤ n)
    → (is_warning r ≡ true → 1 ≤ n)
    → strictness r.decision ≤ n
decision_covered r n a b c = ground arith

IsCovered-each :
    (allow : Bool) (r : GateResult) (vs : List GateResult)
    → (any is_reject vs ≡ true → 3 ≤ strictness r.decision)
    → (any is_human vs ≡ true → 2 ≤ strictness r.decision)
    → (any is_warning vs ≡ true → 1 ≤ strictness r.decision)
    → demanded allow r.risk_level ≤ strictness r.decision
    → All (AtMost r.risk_level) vs
    → All (IsCovered allow r) vs
IsCovered-each allow r [] a b c d all = tt
IsCovered-each allow r (v ∷ vs) a b c d (first, all) = (
  (
    first,
    decision_covered v (strictness r.decision) (λ e. a (ground arith)) (λ e. b (ground arith))
        (λ e. c (ground arith)),
    omega (arith, demanded_mono allow v.risk_level r.risk_level first, d),
  ),
  IsCovered-each allow r vs (λ e. a (ground arith)) (λ e. b (ground arith)) (λ e. c (ground arith))
      d all,
)

-- The aggregate covers each of its verdicts: it has at least their risk, it is at least as strict
-- as their decisions, in the order PASS, PASS_WITH_WARNING, HUMAN_REQUIRED, REJECT, and at least as
-- strict as their risks demand.
pub aggregate_results_sound :
    (env : Env) (allow : Bool) (rs : List GateResult) (r : GateResult)
    → aggregate_results env allow rs ≡ some r
    → All (IsCovered allow r) rs
unfolding aggregate_results
aggregate_results_sound env allow [] r h = cc
aggregate_results_sound env allow (first ∷ others) r h =
    let risk : RiskLevel = max_risk first.risk_level others in
    let strict =
      overall_strict allow risk (any is_reject results) (any is_human results)
        (any is_warning results) in
    let same : r.risk_level ≡ risk = ground arith in
    let decided : r.decision
        ≡ overall allow risk (any is_reject results) (any is_human results)
            (any is_warning results) =
      ground arith in
    IsCovered-each allow r results (λ e. rw decided (strict.0 e)) (λ e. rw decided (strict.1 e))
      (λ e. rw decided (strict.2 e)) (rw (decided, same) strict.3)
      (All-weaken risk r.risk_level results (ground arith)
        (max_risk-ge_start first.risk_level others, max_risk-ge first.risk_level others))
  where
    results : List GateResult
    results = first ∷ others

low_of_All :
    (risk : RiskLevel) (rs : List GateResult)
    → All IsClear rs
    → risk ≡ RiskLevel.low
    → max_risk risk rs ≡ RiskLevel.low
unfolding max_risk
low_of_All risk [] c e = e
low_of_All risk (r ∷ rs) c e =
    low_of_All (if leb (risk_order r.risk_level) (risk_order risk) then risk else r.risk_level) rs
      c.1 (ground arith)

clear_flags :
    (rs : List GateResult)
    → All IsClear rs
    → (any is_reject rs ≡ false) × (any is_human rs ≡ false) × (any is_warning rs ≡ false)
clear_flags [] c = (refl, refl, refl)
clear_flags (r ∷ rs) c = ground (arith, clear_flags rs c.1)

IsClear-each :
    (rs : List GateResult)
    → any is_reject rs ≡ false
    → any is_human rs ≡ false
    → any is_warning rs ≡ false
    → (risk : RiskLevel) → risk ≡ RiskLevel.low
    → All (AtMost risk) rs
    → All IsClear rs
IsClear-each [] nr nh nw risk e all = tt
IsClear-each (r ∷ rs) nr nh nw risk e all = (
  (ground arith, ground arith),
  IsClear-each rs (ground arith) (ground arith) (ground arith) risk e all.1,
)

-- An aggregate is a plain PASS exactly when every verdict is a PASS of LOW risk.
pub aggregate_results-pass_iff :
    (env : Env) (allow : Bool) (rs : List GateResult) (r : GateResult)
    → aggregate_results env allow rs ≡ some r
    → (r.decision ≡ Decision.pass) ↔ All IsClear rs
unfolding aggregate_results
aggregate_results-pass_iff env allow [] r h = cc
aggregate_results-pass_iff env allow (first ∷ others) r h =
    (λ p. forward (ground arith), λ c. ground (arith, backward c))
  where
    results : List GateResult
    results = first ∷ others

    verdict : Decision
    verdict =
        overall allow (max_risk first.risk_level others) (any is_reject results)
          (any is_human results) (any is_warning results)

    forward : verdict ≡ Decision.pass → All IsClear results
    forward p =
        IsClear-each results (ground arith) (ground arith) (ground arith)
          (max_risk first.risk_level others) (ground arith)
          (max_risk-ge_start first.risk_level others, max_risk-ge first.risk_level others)

    backward : All IsClear results → verdict ≡ Decision.pass
    backward c = ground (arith, low_of_All first.risk_level others c.1, clear_flags results c)
