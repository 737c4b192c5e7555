-- ===== src/Service/Models.antt =====
-- What the service of orchestrator/repair_agent_service.py takes from its parts: the processor of
-- failed events, the evaluator's model, the writer of memories and the readers of artifacts.
use sql_self_healing_agent.Prelude.{String, Bool, Option, List}
use sql_self_healing_agent.Core.{AgentExternalResult, UpstreamTaskEvent}
use sql_self_healing_agent.Evidence.{MetadataSnapshot}
use sql_self_healing_agent.Repair.Models.{RepairPlan, DiagnosisResult, PostReflectionResult}
use sql_self_healing_agent.Repair.Evaluator.{Reply}
use sql_self_healing_agent.Agent.Models.{
  WorkspaceValue, CandidateState, AgentRunState, AgentRunResult,
}
use sql_self_healing_agent.Gates.Models.{GateResult}
use sql_self_healing_agent.Session.Models.{RepairSession, RepairAttempt}
use sql_self_healing_agent.Session.World.{Action}

-- What AgenticFailedEventProcessor.run leaves: its result, the workspace and the candidate of the
-- context, the run state, the objects of the executor and the last result of its gate runner.
pub record ProcessorRun : Type 0 where
  pub result : AgentRunResult
  pub workspace : List (String × WorkspaceValue)
  pub candidate : CandidateState
  pub run_state : AgentRunState
  pub diagnosis : Option DiagnosisResult
  pub has_log_digest : Bool
  pub last_gate : Option GateResult

pub record ServiceParts : Type 0 where
  pub agentic_enabled : Bool
  pub process : UpstreamTaskEvent → RepairSession → RepairAttempt → Action ProcessorRun
  pub reflect : DiagnosisResult → DiagnosisResult → Option (Reply PostReflectionResult)
  pub write_success_experience :
      RepairSession
      → RepairAttempt
      → String
      → Option MetadataSnapshot
      → Option RepairPlan
      → Action String
  pub parse_diagnosis : String → Option DiagnosisResult
  pub parse_plan : String → Option RepairPlan
  pub parse_metadata : String → Option MetadataSnapshot

-- How an event is taken up under the lock: it is answered at once, or an attempt is open.
pub data Opening : Type 0 where
  answered : AgentExternalResult → Opening
  opened : RepairSession → RepairAttempt → Opening
