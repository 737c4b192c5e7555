-- ===== src/Repair/Validator/Risk.antt =====
-- The risk of a plan without issues, and the risks that may be returned (repair/validator.py).
use sql_self_healing_agent.Prelude.{Bool, true, false, ◌||◌, List, any, if◌then◌else◌}
use sql_self_healing_agent.Core.{RiskLevel}
use sql_self_healing_agent.Repair.Models.{RepairActionType, ActionRisk, RepairAction}

abbrev pub is_high : RepairAction → Bool
is_high action = elim action.risk_level [ ActionRisk.high ↦ true | _ ↦ false ]

abbrev pub is_medium : RepairAction → Bool
is_medium action = elim action.risk_level [ ActionRisk.medium ↦ true | _ ↦ false ]

abbrev pub is_cast : RepairAction → Bool
is_cast action = elim action.action_type [ RepairActionType.add_cast ↦ true | _ ↦ false ]

unfoldable pub plan_risk : List RepairAction → RiskLevel
plan_risk actions =
    if any is_high actions
    then RiskLevel.high
    else if any is_medium actions || any is_cast actions
    then RiskLevel.medium
    else RiskLevel.low

-- `allow`: whether a candidate of this risk may be returned.
unfoldable pub allows : Bool → RiskLevel → Bool
allows allow_medium_risk RiskLevel.low = true
allows allow_medium_risk RiskLevel.medium = allow_medium_risk
allows allow_medium_risk RiskLevel.high = false
allows allow_medium_risk RiskLevel.blocked = false
