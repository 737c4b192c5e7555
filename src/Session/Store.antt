-- ===== src/Session/Store.antt =====
-- The methods of SessionStore, session/session_store.py. A session, a record and an attempt are
-- passed by value, and a method that mutates one returns it.
pub mod Records
pub mod Consistent
use Prim.Native.String.{◌++◌ as str_append}
use sql_self_healing_agent.Prelude.{
  ℕ, ◌+◌, String, ◌==◌, Bool, true, false, Option, none, some, List, ◌∷◌, [], ◌++◌, if◌then◌else◌,
  find, last?, length,
}
use sql_self_healing_agent.Core.{
  SessionStatus, AttemptStatus, EventStatus, failed, success, UpstreamTaskEvent,
}
use sql_self_healing_agent.Session.Models.{
  EventProcessingStatus, UpstreamTaskEventRecord, RepairSession, RepairAttempt,
}
use sql_self_healing_agent.Session.Keys.{session_id_for_task, build_event_key}
use sql_self_healing_agent.Session.Numbers.{attempt_name}
use sql_self_healing_agent.Session.World.{
  Failure, raised, ok, World, Action, pure, raise, or_raise, ◌>>=◌, ◌>>◌, Host, update, utc_now_iso,
}

-- `write_json_atomic` of session.json
unfoldable pub save_session : RepairSession → Action (Unit {0})
save_session s w = (ok tt, record w { sessions = update s.session_id (some s) w.sessions })

-- `write_json_atomic` of attempts/<attempt_id>.json
unfoldable pub save_attempt : RepairSession → RepairAttempt → Action (Unit {0})
save_attempt s a w = (
  ok tt,
  record w {
    attempts =
        update s.session_id (update a.attempt_id (some a) (w.attempts s.session_id)) w.attempts;
  },
)

unfoldable pub load_attempt : RepairSession → String → Action RepairAttempt
load_attempt s attempt_id w =
    or_raise (w.attempts s.session_id attempt_id) (raised "FileNotFoundError") w

unfoldable pub load_for_task : String → Action (Option RepairSession)
load_for_task task_id w = (ok (w.sessions (session_id_for_task task_id)), w)

unfoldable pub load_by_task_id_and_sql_hash : String → String → Action (Option RepairSession)
load_by_task_id_and_sql_hash task_id sql = do
  session ← load_for_task task_id
  pure (elim session [ none ↦ none | some s ↦ if s.original_sql == sql then some s else none ])

unfoldable pub find_event : RepairSession → String → Option UpstreamTaskEventRecord
find_event s event_key = find (λ r. r.event_key == event_key) s.upstream_events

-- The loop of `save_event_record`: the first record with the key is replaced.
unfoldable pub replace_record :
    UpstreamTaskEventRecord → List UpstreamTaskEventRecord → Option (List UpstreamTaskEventRecord)
replace_record r [] = none
replace_record r (x ∷ xs) =
    let rest = replace_record r xs in
    if x.event_key == r.event_key
    then some (r ∷ xs)
    else elim rest [ none ↦ none | some ys ↦ some (x ∷ ys) ]

-- A session that no one has worked on.
abbrev pub new_session : Host → UpstreamTaskEvent → String → RepairSession
new_session h event now =
    let session_id = session_id_for_task event.id in
    let dir = str_append h.base_dir (str_append "/" session_id) in
    record {
      schema_version = 2;
      session_id = session_id;
      task_id = event.id;
      original_sql = event.sql;
      status = SessionStatus.created;
      latest_sql_candidate = none;
      latest_sql_candidate_attempt_id = none;
      confirmed_sql = none;
      confirmed_attempt_id = none;
      upstream_events = [];
      attempt_ids = [];
      diagnosis_history = [];
      trace_path = str_append dir "/trace.jsonl";
      artifact_dir = str_append dir "/artifacts";
      last_external_result_ref = none;
      agent_terminal_status = none;
      created_at = now;
      updated_at = now;
    }

-- `RepairAttempt(...)` of `create_attempt`
abbrev pub new_attempt : RepairSession → UpstreamTaskEventRecord → String → RepairAttempt
new_attempt s r now =
    let attempt_no = length s.attempt_ids + 1 in
    record {
      schema_version = 2;
      attempt_id = attempt_name attempt_no;
      attempt_no = attempt_no;
      status = AttemptStatus.created;
      source_event_key = r.event_key;
      input_event_id = r.event_key;
      input_failed_sql = r.sql;
      input_error_message = r.error_message;
      input_log_path = r.log_path;
      previous_attempt_id = last? s.attempt_ids;
      post_reflection_result_path = none;
      agent_run_state_path = none;
      log_digest_path = none;
      diagnosis_path = none;
      metadata_snapshot_path = none;
      memory_retrieval_path = none;
      repair_plan_path = none;
      sql_candidate_path = none;
      validation_result_path = none;
      pre_reflection_result_path = none;
      sql_candidate = none;
      diagnosed_error_type = none;
      diagnosed_keywords = [];
      error_fingerprint = none;
      stop_reason = none;
      created_at = now;
      updated_at = now;
    }

module _ (h : Host) where
  unfoldable pub create_missing : UpstreamTaskEvent → Option RepairSession → Action RepairSession
  create_missing event (some s) = pure s
  create_missing event none = do
    now ← utc_now_iso h
    save_session (new_session h event now)
    pure (new_session h event now)

  unfoldable pub load_or_create_for_event : UpstreamTaskEvent → Action RepairSession
  load_or_create_for_event event = do
    existing ← load_for_task event.id
    create_missing event existing

  unfoldable pub create_event_record :
      RepairSession → UpstreamTaskEvent → Action UpstreamTaskEventRecord
  create_event_record s event = do
    now ← utc_now_iso h
    pure (record {
      event_key = build_event_key h.sha256 event;
      task_id = event.id;
      session_id = s.session_id;
      status = event.status;
      sql = event.sql;
      error_message = event.error_message;
      log_path = event.log_path;
      received_at = now;
      processing_status = EventProcessingStatus.received;
      attempt_id = none;
      result_ref = none;
      error_code = none;
      finished_at = none;
    })

  -- `session.upstream_events` is set, and the session is saved.
  write_events : RepairSession → List UpstreamTaskEventRecord → Action RepairSession
  unfolding save_session
  write_events s records = do
    now ← utc_now_iso h
    let s' = record s { upstream_events = records; updated_at = now }
    save_session s'
    pure s'

  unfoldable pub append_new :
      Option UpstreamTaskEventRecord
      → RepairSession
      → UpstreamTaskEventRecord
      → Action RepairSession
  unfolding write_events
  append_new (some _) s r = pure s
  append_new none s r = write_events s (s.upstream_events ++ r ∷ [])

  unfoldable pub append_upstream_event :
      RepairSession → UpstreamTaskEventRecord → Action RepairSession
  unfolding append_new
  append_upstream_event s r = append_new (find_event s r.event_key) s r

  unfoldable pub save_replaced :
      Option (List UpstreamTaskEventRecord) → RepairSession → Action RepairSession
  unfolding write_events
  save_replaced none s = raise (raised "ValueError")
  save_replaced (some records) s = write_events s records

  unfoldable pub save_event_record : RepairSession → UpstreamTaskEventRecord → Action RepairSession
  unfolding save_replaced
  save_event_record s r = save_replaced (replace_record r s.upstream_events) s

  unfoldable pub finish_event :
      RepairSession
      → UpstreamTaskEventRecord
      → Option String
      → Option String
      → EventProcessingStatus
      → Action RepairSession
  finish_event s r result_ref error_code processing_status = do
    now ← utc_now_iso h
    save_event_record s (record r {
      processing_status = processing_status;
      result_ref = result_ref;
      error_code = error_code;
      finished_at = some now;
    })

  -- The session, the record and the attempt, as `create_attempt` leaves them. The event status is
  -- given, to branch on.
  unfoldable pub open_attempt :
      EventStatus
      → Option String
      → RepairSession
      → UpstreamTaskEventRecord
      → Action (RepairSession × RepairAttempt)
  open_attempt success known s r = raise (raised "ValueError")
  open_attempt failed (some attempt_id) s r = do
    attempt ← load_attempt s attempt_id
    pure (s, attempt)
  open_attempt failed none s r = do
    now ← utc_now_iso h
    let attempt = new_attempt s r now
    let s' = record s { attempt_ids = s.attempt_ids ++ attempt.attempt_id ∷ []; updated_at = now }
    save_attempt s' attempt
    s'' ← save_event_record s' (record r {
      attempt_id = some attempt.attempt_id;
      processing_status = EventProcessingStatus.processing;
    })
    pure (s'', attempt)

  unfoldable pub create_attempt :
      RepairSession → UpstreamTaskEventRecord → Action (RepairSession × RepairAttempt)
  create_attempt s r = open_attempt r.status r.attempt_id s r
