-- ===== src/Agent/SubAgents/Specs.antt =====
-- The registry of agent/runner/subagent_task_spec.py, with SubAgentTaskSpec of
-- agent/models/subagent_models.py.
use sql_self_healing_agent.Prelude.{
  ℕ, String, Bool, false, Option, none, some, List, [], ◌∷◌, ◌==◌, length, leb, if◌then◌else◌,
}

pub record SubAgentTaskSpec : Type 0 where
  pub task_name : String
  pub description : String
  pub objective_template : String
  pub allowed_tools : List String
  pub required_context_refs : List String
  pub output_schema_name : String
  pub max_steps : ℕ
  pub max_tool_calls : ℕ
  pub allow_recursive_sub_agent : Bool

abbrev min : ℕ → ℕ → ℕ
min a b = if leb a b then a else b

abbrev spec : String → String → List String → List String → String → SubAgentTaskSpec
spec name description tools refs schema = record {
  task_name = name;
  description = description;
  objective_template = "{objective}";
  allowed_tools = tools;
  required_context_refs = refs;
  output_schema_name = schema;
  max_steps = 10;
  max_tool_calls = min 3 (length tools);
  allow_recursive_sub_agent = false;
}

-- `definitions` of SubAgentTaskSpecRegistry
abbrev pub task_specs : List SubAgentTaskSpec
task_specs =
    spec "diagnose_sql_error" "基于日志和元数据诊断 SQL 错误"
      ("ReadLogTool" ∷ "ReadArtifactTool" ∷ "MetadataQueryTool" ∷ []) ("log_digest" ∷ [])
      "DiagnosisResult"
    ∷ spec "reflect_previous_failure" "比较前后失败并识别振荡" ("ReadArtifactTool" ∷ [])
        ("diagnosis" ∷ "post_reflection" ∷ []) "PostReflectionResult"
    ∷ spec "plan_sql_repair" "依据诊断、元数据和成功经验提出修复计划"
        ("ReadArtifactTool" ∷ "MetadataQueryTool" ∷ "MemoryRetrieveTool" ∷ [])
        ("diagnosis" ∷ "metadata_snapshot" ∷ []) "RepairPlan"
    ∷ spec "generate_sql_candidate" "严格按 RepairPlan 生成候选建议" ("ReadArtifactTool" ∷ [])
        ("repair_plan" ∷ []) "SQLGenerationResult"
    ∷ spec "evaluate_sql_candidate" "独立评估候选语义风险，不替代 Gate"
        ("ReadArtifactTool" ∷ "MetadataQueryTool" ∷ []) ("repair_plan" ∷ "metadata_snapshot" ∷ [])
        "PreReflectionResult"
    ∷ spec "summarize_human_required" "生成不含敏感信息的人工介入摘要" ("ReadArtifactTool" ∷ []) ("diagnosis" ∷ [])
        "HumanRequiredSummary"
    ∷ []

unfoldable pub find_spec : String → List SubAgentTaskSpec → Option SubAgentTaskSpec
find_spec name [] = none
find_spec name (s ∷ rest) = if s.task_name == name then some s else find_spec name rest
