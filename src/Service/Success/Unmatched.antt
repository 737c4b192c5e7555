-- ===== src/Service/Success/Unmatched.antt =====
-- A SUCCESS event that does not match the candidate, and one that is delivered again
-- (`_handle_success_event` of orchestrator/repair_agent_service.py).
use sql_self_healing_agent.Prelude.{
  ◌+◌, String, ◌==◌, ◌≡◌, refl, sym, ap, ◌∙◌, true, false, Option, none, some, eq_refl, eq_iff,
  Bool-cases, inl, inr, same_text,
}
use sql_self_healing_agent.Core.{
  AgentExternalResult, ResultStatus, UpstreamTaskEvent, validate_status_fields, fields_valid,
}
use sql_self_healing_agent.Core.ExternalResults
use sql_self_healing_agent.Session.Models.{
  EventProcessingStatus, UpstreamTaskEventRecord, RepairSession,
}
use sql_self_healing_agent.Session.Keys.{session_id_for_task, build_event_key}
use sql_self_healing_agent.Session.World.{Result, ok, World, pure, ◌>>=◌, ◌>>◌, Host, emit, bind-ok}
use sql_self_healing_agent.Session.Store.{
  load_for_task, load_or_create_for_event, create_missing, create_event_record,
  append_upstream_event, find_event, finish_event,
}
use sql_self_healing_agent.Session.Store.Consistent.{
  IsConsistent, Kept, Elsewhere, finished, append_upstream_event-new, finish_event_sound,
}
use sql_self_healing_agent.Service.Models.{ServiceParts}
use sql_self_healing_agent.Service.Success.{
  Matching, answered, is_succeeded, ack, unmatched, match_candidate, record_success, take_success,
  match_success, after_match, handle_success_event,
}

abbrev pub acknowledged : Option String → AgentExternalResult
acknowledged message = record { status = ResultStatus.success_ack; sql = none; message = message }

ack-ok : (message : Option String) (w : World) → ack message w ≡ (ok (acknowledged message), w)
unfolding ExternalResults.success_ack validate_status_fields fields_valid
ack-ok message w = refl

module _ (h : Host) (parts : ServiceParts) (event : UpstreamTaskEvent) where
  abbrev key : String
  key = build_event_key h.sha256 event

  success_known :
      (s : RepairSession) (w : World)
      → w.sessions (session_id_for_task event.id) ≡ some s
      → load_or_create_for_event h event w ≡ (ok s, w)
  unfolding load_or_create_for_event load_for_task create_missing
  success_known s w e = rw e refl

  match_known :
      (s : RepairSession) (w : World) (p : Result Matching × World)
      → w.sessions (session_id_for_task event.id) ≡ some s
      → take_success h parts (find_event s key) event s w ≡ p
      → match_success h parts event w ≡ p
  unfolding match_success
  match_known s w p e f =
      bind-ok (load_or_create_for_event h event)
        (λ t. take_success h parts (find_event t key) event t) (success_known s w e)
      ∙ f

  handle_matched :
      (w : World) (result : AgentExternalResult) (w' : World)
      → h.lock_free w.acquisitions ≡ true
      → match_success h parts event (record w { acquisitions = w.acquisitions + 1 })
        ≡ (ok (answered result), w')
      → handle_success_event h parts event w ≡ (ok result, w')
  unfolding handle_success_event after_match
  handle_matched w result w' free e = rw (free, e) refl

  -- A SUCCESS event that has succeeded before is acknowledged, and only a lock is taken.
  pub handle_success_event-again :
      (s : RepairSession) (r : UpstreamTaskEventRecord) (w : World)
      → h.lock_free w.acquisitions ≡ true
      → w.sessions (session_id_for_task event.id) ≡ some s
      → find_event s key ≡ some r
      → r.processing_status ≡ EventProcessingStatus.succeeded
      → handle_success_event h parts event w
        ≡ (ok (acknowledged none), record w { acquisitions = w.acquisitions + 1 })
  unfolding take_success
  handle_success_event-again s r w free known found done =
      handle_matched w (acknowledged none) w1 free (
        match_known s w1 (ok (answered (acknowledged none)), w1) known
          (ap (λ o. take_success h parts o event s w1) found ∙ again))
    where
      w1 : World
      w1 = record w { acquisitions = w.acquisitions + 1 }

      again : take_success h parts (some r) event s w1 ≡ (ok (answered (acknowledged none)), w1)
      again =
          rw (ap is_succeeded done)
            (bind-ok (ack none) (λ result. pure (answered result)) (ack-ok none w1))

  -- The session and the record that an unmatched SUCCESS leaves
  abbrev pub Recorded : RepairSession → World → World → Type 0
  Recorded s w w' =
      (s' : RepairSession) × (r : UpstreamTaskEventRecord) × IsConsistent s'
      × Kept s s'
      × (w'.sessions (session_id_for_task event.id) ≡ some s')
      × (find_event s' key ≡ some r)
      × (r.processing_status ≡ EventProcessingStatus.succeeded)
      × (r.error_code ≡ some "UNMATCHED_SUCCESS")
      × (w'.attempts ≡ w.attempts)
      × Elsewhere (session_id_for_task event.id) w w'

  unmatched-Recorded :
      (s : RepairSession) (r x : UpstreamTaskEventRecord) (w : World)
      → IsConsistent s
      → s.session_id ≡ session_id_for_task event.id
      → r.event_key ≡ key
      → find_event s r.event_key ≡ some x
      → (w' : World) × (unmatched h parts s r w
          ≡ (ok (answered (acknowledged (some "SUCCESS 未匹配当前候选，已记录但未确认历史 Attempt"))), w'))
        × Recorded s w w'
  unfolding unmatched
  unmatched-Recorded s r x w v own named found =
      let w1 : World =
        (emit s.session_id "upstream_success_unmatched_candidate" "upstream_event" none w).1 in
      let (s', w', done, v', finds, _, kept, saved, attempts, _, _, elsewhere) =
        finish_event_sound h s r x none (some "UNMATCHED_SUCCESS") EventProcessingStatus.succeeded
          w1 v found in
      (
        w',
        bind-ok (finish_event h s r none (some "UNMATCHED_SUCCESS") EventProcessingStatus.succeeded)
              (λ _.
                ack (some "SUCCESS 未匹配当前候选，已记录但未确认历史 Attempt") >>= λ result. pure (answered result))
              done
            ∙ bind-ok (ack (some "SUCCESS 未匹配当前候选，已记录但未确认历史 Attempt"))
                (λ result. pure (answered result)) (ack-ok _ w'),
        (
          s',
          finished r none (some "UNMATCHED_SUCCESS") EventProcessingStatus.succeeded
              (h.utc_now w1.ticks),
          v',
          kept,
          ap w'.sessions (sym own) ∙ saved,
          finds key ∙ rw ((eq_iff r.event_key key).1 named) refl,
          refl,
          refl,
          attempts,
          ((λ k other. elsewhere.0 k ((λ i. own i == k) ∙ other)), elsewhere.1, elsewhere.2),
        ),
      )

  abbrev new_record : RepairSession → World → UpstreamTaskEventRecord
  new_record s w = record {
    event_key = key;
    task_id = event.id;
    session_id = s.session_id;
    status = event.status;
    sql = event.sql;
    error_message = event.error_message;
    log_path = event.log_path;
    received_at = h.utc_now w.ticks;
    processing_status = EventProcessingStatus.received;
    attempt_id = none;
    result_ref = none;
    error_code = none;
    finished_at = none;
  }

  match_candidate-unmatched :
      (candidate owner : Option String) (s : RepairSession) (r : UpstreamTaskEventRecord)
      (w : World)
      → same_text candidate (some event.sql) ≡ false
      → match_candidate h parts candidate owner event s r w ≡ unmatched h parts s r w
  unfolding match_candidate
  match_candidate-unmatched none owner s r w e = refl
  match_candidate-unmatched (some sql) none s r w e = refl
  match_candidate-unmatched (some sql) (some attempt_id) s r w e =
      elim (Bool-cases (event.sql == sql)) [
        | inl same ↦ cc (sym e ∙ (eq_iff sql event.sql).1 (sym ((eq_iff event.sql sql).0 same)))
        | inr other ↦ rw other refl
      ]

  rebase :
      (s s1 : RepairSession) (w w2 w' : World)
      → Recorded s1 w2 w'
      → Kept s s1
      → w2.attempts ≡ w.attempts
      → Elsewhere (session_id_for_task event.id) w w2
      → Recorded s w w'
  rebase s s1 w w2 w' (s', r', v', kept', saved, found, status, code, attempts, later) kept same
        before =
      (
        s',
        r',
        v',
        kept'
            ∙ ap
                (λ (t : RepairSession). record t {
                  upstream_events = s'.upstream_events;
                  updated_at = s'.updated_at;
                })
                kept,
        saved,
        found,
        status,
        code,
        attempts ∙ same,
        ((λ k other. later.0 k other ∙ before.0 k other), later.1 ∙ before.1, later.2 ∙ before.2),
      )

  record_success-unmatched :
      (s : RepairSession) (r : UpstreamTaskEventRecord) (w : World)
      → IsConsistent s
      → s.session_id ≡ session_id_for_task event.id
      → r.event_key ≡ key
      → find_event s key ≡ none
      → same_text s.latest_sql_candidate (some event.sql) ≡ false
      → (w' : World) × (record_success h parts event s r w
          ≡ (ok (answered (acknowledged (some "SUCCESS 未匹配当前候选，已记录但未确认历史 Attempt"))), w'))
        × Recorded s w w'
  unfolding record_success
  record_success-unmatched s r w v own named fresh other =
      let (s1, w1, done, v1, finds, kept, _, attempts, _, elsewhere) =
        append_upstream_event-new h s r w v (ap (find_event s) named ∙ fresh) in
      let w2 : World =
        (emit s1.session_id "upstream_success_received" "upstream_event" none w1).1 in
      let (w', told, recorded) =
        unmatched-Recorded s1 r r w2 v1 (ap (λ (t : RepairSession). t.session_id) kept ∙ own) named
          (finds r.event_key ∙ rw eq_refl refl) in
      (
        w',
        bind-ok (append_upstream_event h s r)
              (λ t.
                emit t.session_id "upstream_success_received" "upstream_event" none
                >> match_candidate h parts t.latest_sql_candidate t.latest_sql_candidate_attempt_id
                    event t r)
              done
            ∙ match_candidate-unmatched s1.latest_sql_candidate s1.latest_sql_candidate_attempt_id
                s1 r w2
                (ap (λ (t : RepairSession). same_text t.latest_sql_candidate (some event.sql)) kept
                  ∙ other)
            ∙ told,
        rebase s s1 w w2 w' recorded kept attempts
            ((λ k other. elsewhere.0 k ((λ i. own i == k) ∙ other)), elsewhere.1, elsewhere.2),
      )

  -- A new SUCCESS event whose text is not the latest candidate of its session is acknowledged: it is
  -- recorded as succeeded under UNMATCHED_SUCCESS, nothing of the session changes but its events and
  -- its time, and no other session, no attempt, no file and not the set of the events in work.
  pub handle_success_event-unmatched :
      (s : RepairSession) (w : World)
      → IsConsistent s
      → s.session_id ≡ session_id_for_task event.id
      → h.lock_free w.acquisitions ≡ true
      → w.sessions (session_id_for_task event.id) ≡ some s
      → find_event s key ≡ none
      → same_text s.latest_sql_candidate (some event.sql) ≡ false
      → (w' : World) × (handle_success_event h parts event w
          ≡ (ok (acknowledged (some "SUCCESS 未匹配当前候选，已记录但未确认历史 Attempt")), w'))
        × Recorded s w w'
  unfolding take_success create_event_record
  handle_success_event-unmatched s w v own free known fresh other =
      let w1 : World = record w { acquisitions = w.acquisitions + 1 } in
      let r : UpstreamTaskEventRecord = new_record s w1 in
      let (w', told, recorded) =
        record_success-unmatched s r (record w1 { ticks = w1.ticks + 1 }) v own refl fresh other in
      (
        w',
        handle_matched w (acknowledged (some "SUCCESS 未匹配当前候选，已记录但未确认历史 Attempt")) w' free
            (match_known s w1 _ known (ap (λ o. take_success h parts o event s w1) fresh ∙ told)),
        recorded,
      )
