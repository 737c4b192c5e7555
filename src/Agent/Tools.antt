-- ===== src/Agent/Tools.antt =====
-- ToolRegistry of agent/tools/tool_registry.py, Tool of agent/tools/tool.py and the records of
-- agent/models/tool_models.py. The tools are parameters, over the state W that they may change and
-- their inputs I; what a tool raises is the name of the exception's type.
pub mod Permitted
use sql_self_healing_agent.Prelude.{
  String, ◌==◌, Bool, true, false, not, ◌&&◌, ◌||◌, Option, none, some, List, [], ◌∷◌, ◌++◌,
  if◌then◌else◌, any, find, select, map, contains, truthy,
}
use sql_self_healing_agent.Agent.Models.{AgentContext, Phase, WorkspaceValue}

pub Phase-discrete : Discrete Phase
Phase-discrete = hlevel

pub data ToolStatus : Type 0 where
  succeeded failed blocked timeout invalid_input : ToolStatus

pub data SideEffectLevel : Type 0 where
  read_only internal_artifact_write no_external_side_effect : SideEffectLevel

pub record ToolSpec : Type 0 where
  pub name : String
  pub description : String
  pub input_schema : List (String × String)
  pub allowed_phases : List Phase
  pub side_effect_level : SideEffectLevel

pub record ToolCallResult : Type 0 where
  pub tool_name : String
  pub status : ToolStatus
  pub summary : Option String
  pub artifact_refs : List String
  pub workspace_updates : List (String × WorkspaceValue)
  pub error_code : Option String
  pub error_message : Option String
  pub started_at : String
  pub finished_at : String

-- A validated output: its summary, and its fields that hold a text
pub record ToolOutput : Type 0 where
  pub summary : Option String
  pub text_fields : List (String × String)

pub data ToolAnswer : Type 0 where
  output : ToolOutput → ToolAnswer
  raises : String → ToolAnswer

-- The phases are a set, listed in order. `validate` is the validation by the input model, and `run`
-- includes the one by the output model.
pub record Tool (W I : Type 0) : Type 0 where
  pub name : String
  pub description : String
  pub input_schema : List (String × String)
  pub allowed_phases : List Phase
  pub produces_artifact : Bool
  pub validate : I → Option I
  pub run : AgentContext → I → W → W × ToolAnswer

abbrev pub allowed_names : List String
allowed_names =
    "ReadLogTool" ∷ "DiagnoseTool" ∷ "MetadataQueryTool" ∷ "MemoryRetrieveTool"
    ∷ "BuildRepairPlanTool" ∷ "GenerateCandidateTool" ∷ "ReadArtifactTool" ∷ "RunSubAgentTool" ∷ []

abbrev pub forbidden_names : List String
forbidden_names =
    "ExecuteSQLTool" ∷ "WriteSessionTool" ∷ "WriteMemoryTool" ∷ "BypassGateTool"
    ∷ "KnowledgeRetrieveTool" ∷ "TodoWriteTool" ∷ []

unfoldable pub in_phase : Phase → List Phase → Bool
in_phase p ps = any (λ q. elim (Phase-discrete q p) [ yes _ ↦ true | no _ ↦ false ]) ps

-- `str.endswith`
unfoldable pub ends_with : String → String → Bool
ends_with String.[] suffix = suffix == ""
ends_with (String.◌∷◌ c s) suffix = (String.◌∷◌ c s) == suffix || ends_with s suffix

-- `_artifact_refs`, without the empty ones
unfoldable pub artifact_refs : List (String × String) → List String
artifact_refs [] = []
artifact_refs ((key, value) ∷ rest) =
    let refs = artifact_refs rest in
    if ends_with key "_ref" && truthy value then value ∷ refs else refs

-- `_failed`
unfoldable pub failed_call : String → ToolStatus → String → String → String → ToolCallResult
failed_call name status code started finished = record {
  tool_name = name;
  status = status;
  summary = none;
  artifact_refs = [];
  workspace_updates = [];
  error_code = some code;
  error_message = none;
  started_at = started;
  finished_at = finished;
}

unfoldable pub answered_call : String → ToolAnswer → String → String → ToolCallResult
answered_call name (raises error) started finished =
    record (failed_call name failed "TOOL_FAILED" started finished) { error_message = some error }
answered_call name (output o) started finished = record {
  tool_name = name;
  status = succeeded;
  summary = o.summary;
  artifact_refs = artifact_refs o.text_fields;
  workspace_updates = [];
  error_code = none;
  error_message = none;
  started_at = started;
  finished_at = finished;
}

module _ {W I : Type 0} where
  -- `register`; `none` is a ValueError. The tools stand in the order of their registration.
  unfoldable pub register : Tool W I → List (Tool W I) → Option (List (Tool W I))
  register t ts =
      if not (contains t.name allowed_names) || contains t.name forbidden_names
      then none
      else if any (λ u. u.name == t.name) ts
      then none
      else some (ts ++ t ∷ [])

  -- `get`; `none` is a KeyError
  unfoldable pub get : String → List (Tool W I) → Option (Tool W I)
  get name ts = find (λ t. t.name == name) ts

  -- `_spec`
  unfoldable pub spec : Tool W I → ToolSpec
  spec t = record {
    name = t.name;
    description = t.description;
    input_schema = t.input_schema;
    allowed_phases = t.allowed_phases;
    side_effect_level =
        if t.produces_artifact
        then SideEffectLevel.internal_artifact_write
        else SideEffectLevel.read_only;
  }

  unfoldable pub list_available : Phase → List (Tool W I) → List ToolSpec
  list_available phase ts = map spec (select (λ t. in_phase phase t.allowed_phases) ts)

  unfoldable pub run_validated :
      Option I → Tool W I → AgentContext → String → String → String → W → ToolCallResult × W
  run_validated none t context name started finished w =
      (failed_call name invalid_input "TOOL_INPUT_INVALID" started finished, w)
  run_validated (some input) t context name started finished w =
      let (w', answer) = t.run context input w in (answered_call name answer started finished, w')

  unfoldable pub execute_found :
      Option (Tool W I) → AgentContext → I → String → String → String → W → ToolCallResult × W
  execute_found none context input name started finished w =
      (failed_call name blocked "TOOL_NOT_REGISTERED" started finished, w)
  execute_found (some t) context input name started finished w =
      if in_phase context.phase t.allowed_phases
      then run_validated (t.validate input) t context name started finished w
      else (failed_call name blocked "TOOL_PHASE_FORBIDDEN" started finished, w)

  -- `execute`, between two readings of the clock
  unfoldable pub execute :
      List (Tool W I) → String → AgentContext → I → String → String → W → ToolCallResult × W
  execute ts name context input started finished w =
      execute_found (get name ts) context input name started finished w
