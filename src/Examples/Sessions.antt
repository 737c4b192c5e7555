-- ===== src/Examples/Sessions.antt =====
-- A session with one event, on which the theorems of the session store and the service are applied.
use sql_self_healing_agent.Prelude.{
  ◌+◌, String, ◌==◌, ◌≡◌, ◌⊎◌, Bool, refl, true, false, none, some, [], ◌∷◌, if◌then◌else◌, text_or,
  length, decimal, eq_refl, is_blank,
}
use sql_self_healing_agent.Core.{
  SessionStatus, AttemptStatus, RiskLevel, UpstreamTaskEvent, EventStatus,
}
use sql_self_healing_agent.Agent.Models.{CandidateState, CandidateStatus}
use sql_self_healing_agent.Gates.Models.{GateResult, Decision}
use sql_self_healing_agent.Repair.Words.{codes}
use sql_self_healing_agent.Session.Models.{
  EventProcessingStatus, UpstreamTaskEventRecord, RepairSession, RepairAttempt, ArtifactRef,
  candidate_pair_valid,
}
use sql_self_healing_agent.Session.Keys.{session_id_for_task, build_event_key}
use sql_self_healing_agent.Session.Numbers.{attempt_name}
use sql_self_healing_agent.Session.World.{
  Result, raised, ok, err, World, Host, Saved, raise, update,
}
use sql_self_healing_agent.Session.Store.{
  find_event, new_session, new_attempt, create_attempt, load_or_create_for_event, load_for_task,
  create_missing, create_event_record, append_upstream_event, append_new, load_attempt,
  save_attempt, save_session,
}
use sql_self_healing_agent.Session.Store.Consistent.{
  IsConsistent, names, Opened, create_attempt_sound,
}
use sql_self_healing_agent.Session.Artifacts.{exists, load, save_text_ref, universal_newlines}
use sql_self_healing_agent.Session.Artifacts.RoundTrip.{has_return, load-save_text_ref}
use sql_self_healing_agent.Session.Commit.Guards.{Refuses, Commits, commit-decides}
use sql_self_healing_agent.Service.Models.{ServiceParts}
use sql_self_healing_agent.Service.Results.{persist_external_result, human}
use sql_self_healing_agent.Service.Failed.{handle_failed_event, run_event, fail_previous}
use sql_self_healing_agent.Service.Success.{
  Matching, answered, confirmed, handle_success_event, match_success, take_success, record_success,
  match_candidate, confirm, confirm_attempt,
}
use sql_self_healing_agent.Service.Closing.{human_result, human_sound, closed, result_path}
use sql_self_healing_agent.Service.Replay.{handle_failed_event-persisted}
use sql_self_healing_agent.Service.Answers.{Answers}
use sql_self_healing_agent.Service.Answers.Runs.{run_event-Answers}
use sql_self_healing_agent.Service.Success.Unmatched.{
  acknowledged, Recorded, handle_success_event-unmatched,
}
use sql_self_healing_agent.Service.Success.Confirmed.{Confirms, match_success-Confirms}
use sql_self_healing_agent.Examples.Data.{failed_sql, fixed_sql}

abbrev written : Saved → String
written (Saved.external_result r) = text_or r.message ""
written (Saved.run_state s) = "run state"
written (Saved.post_reflection r) = "post reflection"

abbrev host : Host
host = record {
  utc_now = λ n. "2026-01-01T00:00:00+00:00";
  lock_free = λ n. true;
  sha256 = λ text. decimal (length text);
  base_dir = ".sessions";
  uuid4 = decimal;
  file_name = λ name. name;
  sanitize = λ text. text;
  dumps = written;
  parse_result = λ text. some (human_result text);
  dump_ref = λ ref. ref.path;
  parse_ref = λ text. some (record {
    artifact_id = "art_1";
    session_id = "sess_job";
    attempt_id = some "attempt_001";
    artifact_type = "CANDIDATE_SQL";
    path = text;
    content_hash = "9";
    size_bytes = 9;
    token_estimate = 3;
    sanitized = true;
    created_at = "2026-01-01T00:00:00+00:00";
  });
}

abbrev event_of : EventStatus → UpstreamTaskEvent
event_of status = record {
  id = "job";
  status = status;
  sql = failed_sql;
  error_message = some "Unknown column amt";
  log_path = none;
}

abbrev failed_event : UpstreamTaskEvent
failed_event = event_of EventStatus.failed

abbrev success_event : UpstreamTaskEvent
success_event = event_of EventStatus.success

abbrev event_record : UpstreamTaskEventRecord
event_record = record {
  event_key = build_event_key host.sha256 failed_event;
  task_id = "job";
  session_id = session_id_for_task "job";
  status = EventStatus.failed;
  sql = failed_sql;
  error_message = some "Unknown column amt";
  log_path = none;
  received_at = "2026-01-01T00:00:00+00:00";
  processing_status = EventProcessingStatus.received;
  attempt_id = none;
  result_ref = none;
  error_code = none;
  finished_at = none;
}

-- The session as it is when the first event has been recorded
abbrev session : RepairSession
session = record (new_session host failed_event "2026-01-01T00:00:00+00:00") {
  upstream_events = event_record ∷ [];
}

abbrev attempt : RepairAttempt
attempt = new_attempt session event_record "2026-01-01T00:00:00+00:00"

abbrev empty_session : RepairSession
empty_session = new_session host failed_event "2026-01-01T00:00:00+00:00"

abbrev world : RepairSession → World
world s = record {
  sessions = λ id. if id == session_id_for_task "job" then some s else none;
  attempts = λ id name. none;
  files = λ path. none;
  active_event_keys = λ key. false;
  trace = [];
  ticks = 0;
  acquisitions = 0;
}

session-IsConsistent : IsConsistent session
unfolding names candidate_pair_valid
session-IsConsistent = record { distinct = (refl, tt); numbered = refl; paired = refl }

empty_session-IsConsistent : IsConsistent empty_session
unfolding names candidate_pair_valid
empty_session-IsConsistent = record { distinct = tt; numbered = refl; paired = refl }

recorded : find_event session event_record.event_key ≡ some event_record
unfolding find_event
recorded = rw eq_refl refl

stored : (s : RepairSession) → (world s).sessions (session_id_for_task "job") ≡ some s
stored s = rw eq_refl refl

-- A service whose processor fails
abbrev service : ServiceParts
service = record {
  agentic_enabled = true;
  process = λ e s a. raise (raised "RuntimeError");
  reflect = λ before now. none;
  write_success_experience = λ s a sql metadata plan. raise (raised "OSError");
  parse_diagnosis = λ text. none;
  parse_plan = λ text. none;
  parse_metadata = λ text. none;
}

stop_not_blank : is_blank "stop" ≡ false
unfolding is_blank
stop_not_blank = refl

nothing_found : find_event empty_session (build_event_key host.sha256 success_event) ≡ none
unfolding find_event
nothing_found = refl

load-save_text_ref_example :
    let (saved, w') =
      save_text_ref host "sess_job"
        (some "attempt_001")
        "log.txt"
        "ERROR"
        "LOG_DIGEST"
        (world session) in
    (ref : ArtifactRef) × (saved ≡ ok ref)
    × (exists host ref w' ≡ true)
    × (has_return "ERROR" ≡ false
        → load host ref "sess_job" (some "attempt_001") w' ≡ (ok "ERROR", w'))
    × ((host.sha256 (codes (universal_newlines false "ERROR")) == host.sha256 (codes "ERROR"))
          ≡ false
        → load host ref "sess_job" (some "attempt_001") w'
          ≡ (err (raised "ArtifactIntegrityError"), w'))
load-save_text_ref_example =
    load-save_text_ref host "sess_job" (some "attempt_001") "log.txt" "ERROR" "LOG_DIGEST"
      (world session) (refl, refl)

-- A text with a carriage return before a line feed is read as a shorter one, with another hash.
return_changes_hash :
    (host.sha256 (codes (universal_newlines false "A\r\nB")) == host.sha256 (codes "A\r\nB"))
    ≡ false
unfolding universal_newlines decimal
return_changes_hash = refl

abbrev candidate : CandidateState
candidate = record {
  draft_sql = some fixed_sql;
  draft_artifact_ref = some "artifact://sess_job/attempt_001/candidate.sql";
  formal_sql = some fixed_sql;
  status = CandidateStatus.ready;
  gate_feedback = [];
}

abbrev gate : GateResult
gate = record {
  decision = Decision.pass;
  risk_level = RiskLevel.low;
  gate_name = "GateRunner";
  candidate_hash = decimal (length (codes fixed_sql));
  feedback = [];
  evidence_refs = [];
  checked_invariants = [];
  failed_invariants = [];
  created_at = "2026-01-01T00:00:00+00:00";
}

-- The session once its attempt is open, and the store with the file of its candidate
abbrev running_session : RepairSession
running_session = record session { attempt_ids = attempt.attempt_id ∷ [] }

abbrev stored_world : World
stored_world = record (world running_session) { files = λ path. some fixed_sql }

commit-decides_example :
    Refuses host running_session attempt candidate gate stored_world
    ⊎ Commits host running_session attempt candidate gate stored_world
commit-decides_example = commit-decides host running_session attempt candidate gate stored_world

create_attempt_sound_example :
    (s' : RepairSession) × (a : RepairAttempt) × (w' : World) × (create_attempt host session
        event_record
        (world session)
      ≡ (ok (s', a), w'))
    × Opened host session event_record event_record (world session) session-IsConsistent s' a w'
create_attempt_sound_example =
    create_attempt_sound host session event_record event_record (world session) session-IsConsistent
      refl refl recorded

human_sound_example :
    (s' : RepairSession) × (a' : RepairAttempt) × (w' : World) × (human host session attempt "stop"
        (world session)
      ≡ (ok (human_result "stop"), w'))
    × IsConsistent s'
    × ((k : String)
        → find_event s' k ≡ (
            if event_record.event_key == k
            then closed
                (find_event session event_record.event_key)
                (result_path host session attempt)
                (host.utc_now 2)
            else find_event session k))
    × (w'.sessions session.session_id ≡ some s')
    × (s'.status ≡ SessionStatus.human_required)
    × (s'.agent_terminal_status ≡ some "HUMAN_REQUIRED")
    × (s'.last_external_result_ref ≡ some (result_path host session attempt))
    × (a'.status ≡ AttemptStatus.human_required)
    × (w'.attempts
        ≡ update session.session_id
            (update attempt.attempt_id (some a') (λ name. none))
            (λ id name. none))
    × (w'.acquisitions ≡ 0)
human_sound_example =
    human_sound host session attempt "stop" (world session) session-IsConsistent stop_not_blank

handle_failed_event-persisted_example :
    (w' : World) × (persist_external_result host session attempt
        (human_result "stop")
        (world session)
      ≡ (ok (human_result "stop"), w'))
    × (handle_failed_event host service failed_event w'
        ≡ (ok (human_result "stop"), record w' { acquisitions = w'.acquisitions + 1 }))
handle_failed_event-persisted_example =
    handle_failed_event-persisted host service failed_event session attempt event_record
      (human_result "stop") (human_result "stop") (world session) session-IsConsistent refl refl
      recorded refl refl

run_event-Answers_example :
    Answers (run_event host service failed_event session attempt (world session))
run_event-Answers_example =
    run_event-Answers host service failed_event session attempt (world session) (λ attempt_id e. cc)

handle_success_event-unmatched_example :
    (w' : World) × (handle_success_event host service success_event (world empty_session)
      ≡ (ok (acknowledged (some "SUCCESS 未匹配当前候选，已记录但未确认历史 Attempt")), w'))
    × Recorded host service success_event empty_session (world empty_session) w'
handle_success_event-unmatched_example =
    handle_success_event-unmatched host service success_event empty_session (world empty_session)
      empty_session-IsConsistent refl refl (stored empty_session) nothing_found refl

-- The session with the text of the event as the candidate of its attempt, which is stored
abbrev candidate_session : RepairSession
candidate_session = record session {
  attempt_ids = attempt.attempt_id ∷ [];
  latest_sql_candidate = some success_event.sql;
  latest_sql_candidate_attempt_id = some attempt.attempt_id;
}

abbrev candidate_world : World
candidate_world = record (world candidate_session) { attempts = λ id name. some attempt }

abbrev is_confirmed : Result Matching × World → Bool
is_confirmed (ok (confirmed s a sql), w') = true
is_confirmed (ok (answered r), w') = false
is_confirmed (err e, w') = false

candidate_is_confirmed :
    is_confirmed (match_success host service success_event candidate_world) ≡ true
unfolding match_success load_or_create_for_event load_for_task create_missing take_success
    create_event_record record_success append_upstream_event append_new find_event match_candidate
    confirm confirm_attempt load_attempt save_attempt save_session session_id_for_task
    build_event_key decimal
candidate_is_confirmed = refl

match_success-Confirms_example :
    Confirms success_event (match_success host service success_event candidate_world)
match_success-Confirms_example = match_success-Confirms host service success_event candidate_world

-- The attempt of a candidate that is not in the store is not caught: the FAILED event of that
-- candidate raises.
lost_candidate_raises :
    (run_event host service failed_event candidate_session attempt (world candidate_session)).0
    ≡ err (raised "FileNotFoundError")
unfolding run_event fail_previous load_attempt attempt_name
lost_candidate_raises = refl
