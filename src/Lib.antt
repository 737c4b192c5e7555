-- ===== src/Lib.antt =====
-- A verification development for the SQL self-healing agent, a service that takes the event of a
-- failed SQL task, diagnoses it, plans and generates a repair, and hands a candidate out only after
-- three gates have passed it. Paths are those of the Python package sql_self_healing_agent.
--
-- How the program's parts interact. An event reaches orchestrator/repair_agent_service.py, which
-- runs orchestrator/agentic_failed_event_processor.py. That builds an AgentRunner
-- (agent/runner/agent_runner.py), whose loop asks a main agent for the next action, has an executor
-- carry it out, keeps the execution plan (agent/planning) up to date, and gives a proposed candidate
-- to the gates (agent/gates). The gates apply a repair plan to the failed SQL, compare the result with
-- the candidate (repair/sql_generator.py), judge it by red lines (repair/validator.py) and have it
-- reflected on (repair/evaluator.py). Model calls, tool calls, sub-agents and gates run as operations
-- under hooks (agent/hooks) that bound and filter them.
--
-- Which file models which part:
--   Core, Core/*          core/enums.py, core/models.py, orchestrator/external_result_factory.py
--   Evidence              the records of metadata/metadata_models.py and memory/memory_models.py
--   Repair/Models         repair/repair_models.py, repair/reflection.py, diagnostics/diagnosis_models.py
--   Repair/Words          the keyword patterns of repair/validator.py, and what re and str give (TextRules)
--   Repair/Apply          apply_repair_plan and _replace_action of repair/sql_generator.py
--   Repair/Normalize      _normalized_text and _static_partition of the same file
--   Repair/Diff           sql_equivalent, candidate_matches_plan and build_diff of the same file
--   Repair/Validator/*    Validator.validate of repair/validator.py
--   Repair/Evaluator/*    repair/evaluator.py and repair/error_oscillation_detector.py
--   Agent/Models          the records of agent/models and agent/runner/agent_result.py
--   Agent/Graph/*         the cycle search of agent/planning/execution_plan_validator.py
--   Agent/Planning/*      ExecutionPlanValidator of the same file
--   Agent/Updater/*       agent/planning/execution_plan_updater.py and progress_detector.py
--   Agent/Runner/*        AgentRunner of agent/runner/agent_runner.py
--   Agent/MainAgent/*     DeterministicMainAgent of orchestrator/agentic_failed_event_processor.py
--   Agent/SubAgents/*     agent/runner/subagent_runner.py and subagent_task_spec.py
--   Agent/Tools/*         ToolRegistry of agent/tools/tool_registry.py and agent/models/tool_models.py
--   Gates/*               agent/gates: the three gates, risk_aggregator.py and gate_runner.py
--   Hooks/*               agent/hooks and llm/retry_hook.py
--   Session/Models, Keys  session/session_models.py, session/event_key_builder.py and the identifiers
--   Session/Numbers       the names of attempts of session/session_store.py
--   Session/World         the files, locks and clock that the store and the service work on
--   Session/Artifacts/*   ArtifactStore of artifacts/artifact_store.py
--   Session/Store/*       SessionStore of session/session_store.py, with its invariant
--   Session/Commit/*      CandidateCommitter of agent/gates/candidate_committer.py
--   Service/Results       _persist_external_result, _human and the readers of saved results of
--                         orchestrator/repair_agent_service.py
--   Service/Success/*     _handle_success_event of the same file
--   Service/Recovery      how _handle_failed_event takes an event up, with _recover_failed_event
--   Service/Failed        the run of a failed event, its stages and the commit
--   Service/Dispatch      handle_upstream_event
--   Service/Closing, Replay, Answers/*
--                         how events are closed, delivered again and answered
--   Prelude, Prelude/*    shared names, Boolean tests, lists, Python texts
--   Examples/*            concrete inputs, and tests
--
-- How the code is rendered. Classes become records, enumerations and Literal types become data types
-- with the same members. The methods of the session store and of the service are actions on a world of
-- files, with exceptions as values. A session and an attempt are passed by value, and the handler of a
-- stage of a run gets them as they are when it raises. A method that changes an object returns the
-- changed object; where the code shares an object between parts (the context and the run state of a
-- run), a part takes it and gives it back. An exception is a value: none of an Option, or a constructor of a result type, and the
-- comments say which. Names keep the words of the source in snake case.
--
-- Parameters. The SQL parser is a record of functions (SqlEngine). What Python's re and str say of the
-- characters from 128 on, and how re.subn reads a replacement, is another (TextRules). What
-- a model answers, the repair planner, the tracing and the compaction, the clock, a fresh identifier
-- and SHA-256 are arguments.
-- The main agent, the executor and the gate of AgentRunner are parameters with named laws (Laws): they
-- leave the runner's counts and the plan alone, and the gate settles the status. GateRunner.run is
-- shown to keep the gate's law, and an example fills all of them. For the session and the service
-- (Host, ServiceParts) these are the clock, whether a lock comes in time, SHA-256, JSON, the sanitizer,
-- the processor of failed events, which may change the files in any way as other processes do
-- meanwhile, and the memory writer.
--
-- Conventions. A confidence is a number of hundredths, since it is only copied and set. Revisions and
-- counts are natural numbers. The texts of a plan and of a hook's input are folded as ASCII texts. A
-- replacement that re.subn refuses counts as one that does not occur, where the code raises re.error.
-- A JSON object that is only passed on is an association list of texts. Files are written as on POSIX
-- and artifacts are read with universal newlines; the readers of JSON are parameters, and take the
-- text of the file as it was written.
--
-- Fuel. The cycle search takes one unit more than there are steps (Agent/Graph/Total proves that it is
-- enough). AgentRunner.run takes max_steps + 1, since every round that goes on counts a step
-- (Agent/Runner/Loop). The loop of a sub-agent takes max_steps + 1 (Agent/SubAgents/Guards), and the
-- retry loop one unit for the first call and one for each retry (Hooks/Retry/Bounds).
--
-- Not modelled: the memory, the diagnosis, the model clients and their prompts, the executor and the
-- single tools, the context compaction, the trace files, the command line and the mock upstream. They are input and
-- output, calls of other services, or parts that the modelled ones take as parameters. That writing a
-- file fails, and that a directory is missing, are not modelled either.
mod Prelude
pub mod Core
pub mod Evidence
pub mod Repair
pub mod Agent
pub mod Gates
pub mod Hooks
pub mod Session
pub mod Service
mod Examples
