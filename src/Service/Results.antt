-- ===== src/Service/Results.antt =====
-- How the service answers: `_persist_external_result`, `_human`, `_load_processed_failed_result` and
-- `_load_attempt_artifact` of orchestrator/repair_agent_service.py.
use sql_self_healing_agent.Prelude.{
  String, ◌==◌, Bool, false, Option, none, some, if◌then◌else◌, truthy,
}
use sql_self_healing_agent.Core.{SessionStatus, AttemptStatus, AgentExternalResult}
use sql_self_healing_agent.Core.ExternalResults
use sql_self_healing_agent.Session.Models.{
  EventProcessingStatus, UpstreamTaskEventRecord, RepairSession, RepairAttempt,
}
use sql_self_healing_agent.Session.World.{
  raised, ok, Action, pure, or_raise, catch, ◌>>=◌, ◌>>◌, Host, Saved, utc_now_iso, emit,
}
use sql_self_healing_agent.Session.Store.{save_session, save_attempt, find_event, finish_event}
use sql_self_healing_agent.Session.Artifacts.{save_json, load}

-- A result of ExternalResultFactory, or the ValidationError of its model
abbrev pub valid : Option AgentExternalResult → Action AgentExternalResult
valid r = or_raise r (raised "ValidationError")

-- `_active_event_keys.discard` and `add`
abbrev pub set_active : String → Bool → Action (Unit {0})
set_active key on w =
    (ok tt, record w { active_event_keys = λ k. if k == key then on else w.active_event_keys k })

module _ (h : Host) where
  -- The end of `_persist_external_result`: the record of the event is finished, or the session is
  -- saved where it has none.
  unfoldable pub close_event :
      Option UpstreamTaskEventRecord → RepairSession → String → Action RepairSession
  close_event (some r) s result_ref =
      finish_event h s r (some result_ref) none EventProcessingStatus.succeeded
  close_event none s result_ref = save_session s >> pure s

  unfoldable pub persist_external_result :
      RepairSession → RepairAttempt → AgentExternalResult → Action AgentExternalResult
  persist_external_result s a result = do
    set_active a.source_event_key false
    result_ref ←
        save_json h s.session_id a.attempt_id "external_result.json" (Saved.external_result result)
    let s' = record s { last_external_result_ref = some result_ref }
    close_event (find_event s' a.source_event_key) s' result_ref
    pure result

  -- `_human`
  unfoldable pub human : RepairSession → RepairAttempt → String → Action AgentExternalResult
  human s a message = do
    attempt_updated ← utc_now_iso h
    let a' = record a { status = AttemptStatus.human_required; updated_at = attempt_updated }
    session_updated ← utc_now_iso h
    let s' = record s {
      status = SessionStatus.human_required;
      agent_terminal_status = some "HUMAN_REQUIRED";
      updated_at = session_updated;
    }
    save_attempt s' a'
    save_session s'
    emit s'.session_id "human_required_returned" "orchestrator" (some a'.attempt_id)
    result ← valid (ExternalResults.human_required message)
    persist_external_result s' a' result

  -- The file that a result reference names, when it is there
  unfoldable pub read_result : Option String → Action (Option AgentExternalResult)
  read_result none = pure none
  read_result (some text) = do
    result ← or_raise (h.parse_result text) (raised "ValidationError")
    pure (some result)

  unfoldable pub processed_result : Option String → Action (Option AgentExternalResult)
  processed_result none w = (ok none, w)
  processed_result (some path) w =
      if truthy path then read_result (w.files path) w else (ok none, w)

  -- `_load_attempt_artifact`. Whatever goes wrong with the reference, a file of that path is read.
  module _ {T : Type 0} (parse : String → Option T) where
    unfoldable pub load_owned : String → Action (Option T)
    load_owned reference = do
      ref ← or_raise (h.parse_ref reference) (raised "ValidationError")
      content ← load h ref ref.session_id ref.attempt_id
      value ← or_raise (parse content) (raised "ValidationError")
      pure (some value)

    unfoldable pub load_legacy : Option String → Action (Option T)
    load_legacy none = pure none
    load_legacy (some text) = do
      value ← or_raise (parse text) (raised "ValidationError")
      pure (some value)

    unfoldable pub load_attempt_artifact : Option String → Action (Option T)
    load_attempt_artifact none w = (ok none, w)
    load_attempt_artifact (some reference) w =
        if truthy reference
        then catch (load_owned reference) (λ _ w'. load_legacy (w'.files reference) w') w
        else (ok none, w)
