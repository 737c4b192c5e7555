-- ===== src/Examples/Tools.antt =====
-- A registry with one tool.
use sql_self_healing_agent.Prelude.{String, ◌⊎◌, refl, true, some, List, [], ◌∷◌}
use sql_self_healing_agent.Agent.Models.{Phase}
use sql_self_healing_agent.Agent.Tools.{Tool, output, register, execute}
use sql_self_healing_agent.Agent.Tools.Permitted.{
  IsRegistry, nothing, registered, Ran, Refused, execute-IsPermitted,
}
use sql_self_healing_agent.Examples.Data.{context}

-- It keeps what it was given.
abbrev read_log : Tool (List String) String
read_log = record {
  name = "ReadLogTool";
  description = "reads a log";
  input_schema = [];
  allowed_phases = Phase.gating ∷ [];
  produces_artifact = true;
  validate = some;
  run = λ c input seen. (input ∷ seen, output (record { summary = some input; text_fields = [] }));
}

one_tool : IsRegistry (read_log ∷ [])
unfolding register
one_tool = registered read_log [] nothing refl

execute-IsPermitted_example :
    Ran
      (read_log ∷ [])
      "ReadLogTool"
      context
      "a.log"
      "1"
      "2"
      []
      (execute (read_log ∷ []) "ReadLogTool" context "a.log" "1" "2" [])
    ⊎ Refused
        (read_log ∷ [])
        "ReadLogTool"
        context
        "a.log"
        "1"
        "2"
        []
        (execute (read_log ∷ []) "ReadLogTool" context "a.log" "1" "2" [])
execute-IsPermitted_example =
    execute-IsPermitted (read_log ∷ []) "ReadLogTool" context "a.log" "1" "2" [] one_tool
