-- ===== src/Service/Closing.antt =====
-- How an event is closed, by `_persist_external_result` and `_human` of
-- orchestrator/repair_agent_service.py.
use sql_self_healing_agent.Prelude.{
  ◌+◌, String, ◌==◌, ◌≡◌, refl, ap, ◌∙◌, false, Option, none, some, inl, inr, if◌then◌else◌,
  Bool-cases, is_blank, sym, eq_iff, eq_refl,
}
use sql_self_healing_agent.Core.{
  SessionStatus, AttemptStatus, AgentExternalResult, ResultStatus, fields_valid,
}
use sql_self_healing_agent.Core.ExternalResults
use sql_self_healing_agent.Session.Models.{
  EventProcessingStatus, UpstreamTaskEventRecord, RepairSession, RepairAttempt,
  candidate_pair_valid,
}
use sql_self_healing_agent.Session.World.{
  ok, World, pure, ◌>>=◌, Host, Saved, emit, update, bind-ok,
}
use sql_self_healing_agent.Session.Store.{save_session, save_attempt, find_event}
use sql_self_healing_agent.Session.Store.Records.{find_key-own}
use sql_self_healing_agent.Session.Store.Consistent.{
  IsConsistent, Kept, finished, finish_event_sound,
}
use sql_self_healing_agent.Session.Artifacts.{save_json, write_text, legacy_artifact_path}
use sql_self_healing_agent.Service.Results.{
  valid, set_active, close_event, persist_external_result, human,
}

-- What the key of a closed event finds, where it found anything.
abbrev pub closed :
    Option UpstreamTaskEventRecord → String → String → Option UpstreamTaskEventRecord
closed none result_ref now = none
closed (some r) result_ref now =
    some (finished r (some result_ref) none EventProcessingStatus.succeeded now)

pub find_event-own :
    (s : RepairSession) (key : String) (r : UpstreamTaskEventRecord)
    → find_event s key ≡ some r
    → r.event_key ≡ key
unfolding find_event
find_event-own s key r e = find_key-own key r s.upstream_events e

module _ (h : Host) (s : RepairSession) (w : World) (v : IsConsistent s) where
  -- The session with its record closed under the key, saved; nothing else is written.
  abbrev pub Closed : String → String → RepairSession → World → Type 0
  Closed key result_ref s' w' =
      IsConsistent s'
      × Kept s s'
      × ((k : String)
          → find_event s' k ≡ (
              if key == k
              then closed (find_event s key) result_ref (h.utc_now w.ticks)
              else find_event s k))
      × (w'.sessions s.session_id ≡ some s')
      × (w'.attempts ≡ w.attempts)
      × (w'.files ≡ w.files)
      × (w'.acquisitions ≡ w.acquisitions)

  unrecorded :
      (key k result_ref now : String)
      → find_event s key ≡ none
      → find_event s k
        ≡ (if key == k then closed (find_event s key) result_ref now else find_event s k)
  unrecorded key k result_ref now e = elim (Bool-cases (key == k)) [
    | inl same ↦ rw same (
        ap (find_event s) (sym ((eq_iff key k).0 same))
        ∙ e
        ∙ sym (ap (λ o. closed o result_ref now) e))
    | inr other ↦ rw other refl
  ]

  recorded :
      (key k result_ref now : String) (r : UpstreamTaskEventRecord)
      (found : Option UpstreamTaskEventRecord)
      → find_event s key ≡ some r
      → r.event_key ≡ key
      → (if r.event_key == k
          then some (finished r (some result_ref) none EventProcessingStatus.succeeded now)
          else found)
        ≡ (if key == k then closed (find_event s key) result_ref now else found)
  recorded key k result_ref now r found e own =
      (λ i.
        if own i == k
        then some (finished r (some result_ref) none EventProcessingStatus.succeeded now)
        else found)
      ∙ ap (λ o. if key == k then closed o result_ref now else found) (sym e)

  close_event_sound :
      (key result_ref : String) (o : Option UpstreamTaskEventRecord)
      → find_event s key ≡ o
      → (s' : RepairSession) × (w' : World) × (close_event h o s result_ref w ≡ (ok s', w'))
        × Closed key result_ref s' w'
  unfolding close_event save_session
  close_event_sound key result_ref none e = (
    s,
    _,
    refl,
    (
      v,
      refl,
      (λ k. unrecorded key k result_ref (h.utc_now w.ticks) e),
      rw eq_refl refl,
      refl,
      refl,
      refl,
    ),
  )
  close_event_sound key result_ref (some r) e =
      let own = find_event-own s key r e in
      let (s', w', done, v', finds, _, frame, saved, kept, files, locks, _) =
        finish_event_sound h s r r (some result_ref) none EventProcessingStatus.succeeded w v
          (ap (find_event s) own ∙ e) in
      (
        s',
        w',
        done,
        (
          v',
          frame,
          (λ k. finds k ∙ recorded key k result_ref (h.utc_now w.ticks) r (find_event s k) e own),
          saved,
          kept,
          files,
          locks,
        ),
      )

-- The path of the result of an attempt
abbrev pub result_path : Host → RepairSession → RepairAttempt → String
result_path h s a = legacy_artifact_path h s.session_id a.attempt_id "external_result.json"

module _ (h : Host) (s : RepairSession) (a : RepairAttempt) (w : World) (v : IsConsistent s) where
  -- `_persist_external_result` raises nothing and returns the result that it was given. It leaves
  -- the result in its file, sanitized, and the session consistent, saved, naming that file, and with
  -- the record of the event, where it has one, succeeded and naming that file; every other record,
  -- all else of the session but its time, and every attempt is as before.
  pub persist_external_result_sound :
      (result : AgentExternalResult)
      → (s' : RepairSession) × (w' : World) × (persist_external_result h s a result w
          ≡ (ok result, w'))
        × IsConsistent s'
        × Kept (record s { last_external_result_ref = some (result_path h s a) }) s'
        × ((k : String)
            → find_event s' k ≡ (
                if a.source_event_key == k
                then closed
                    (find_event s a.source_event_key)
                    (result_path h s a)
                    (h.utc_now w.ticks)
                else find_event s k))
        × (w'.sessions s.session_id ≡ some s')
        × (w'.attempts ≡ w.attempts)
        × (w'.files (result_path h s a)
            ≡ some (h.sanitize (h.dumps (Saved.external_result result))))
        × (w'.acquisitions ≡ w.acquisitions)
  unfolding persist_external_result save_json write_text find_event candidate_pair_valid
  persist_external_result_sound result =
      let t : RepairSession = record s { last_external_result_ref = some (result_path h s a) } in
      let w1 : World =
        (save_json h s.session_id a.attempt_id "external_result.json" (Saved.external_result result)
          (set_active a.source_event_key false w).1).1 in
      let u : IsConsistent t = record {
        distinct = v.distinct;
        numbered = v.numbered;
        paired = v.paired;
      } in
      let (s', w', done, (v', frame, finds, saved, kept, files, locks)) =
        close_event_sound h t w1 u a.source_event_key (result_path h s a)
          (find_event t a.source_event_key) refl in
      (
        s',
        w',
        bind-ok (close_event h (find_event t a.source_event_key) t (result_path h s a))
            (λ _. pure result) done,
        v',
        frame,
        finds,
        saved,
        kept,
        ap (λ f. f (result_path h s a)) files ∙ rw eq_refl refl,
        locks,
      )

-- A text that is not blank, as the message of a refusal
abbrev pub human_result : String → AgentExternalResult
human_result message = record {
  status = ResultStatus.human_required;
  sql = none;
  message = some message;
}

pub human_required-valid :
    (message : String)
    → is_blank message ≡ false
    → ExternalResults.human_required message ≡ some (human_result message)
unfolding ExternalResults.human_required fields_valid
human_required-valid message e = rw e refl

-- The session, the attempt and the world with which `_human` persists its answer
abbrev pub human_session : Host → RepairSession → World → RepairSession
human_session h s w = record s {
  status = SessionStatus.human_required;
  agent_terminal_status = some "HUMAN_REQUIRED";
  updated_at = h.utc_now (w.ticks + 1);
}

abbrev pub human_attempt : Host → RepairAttempt → World → RepairAttempt
human_attempt h a w = record a {
  status = AttemptStatus.human_required;
  updated_at = h.utc_now w.ticks;
}

abbrev pub human_world : Host → RepairSession → RepairAttempt → World → World
human_world h s a w =
    let t = human_session h s w in
    let b = human_attempt h a w in
    (emit t.session_id "human_required_returned" "orchestrator" (some b.attempt_id)
      (save_session t (save_attempt t b (record w { ticks = w.ticks + 1 + 1 })).1).1).1

pub human-closes :
    (h : Host) (s : RepairSession) (a : RepairAttempt) (message : String) (w : World)
    → human h s a message w
      ≡ (valid (ExternalResults.human_required message)
            >>= persist_external_result h (human_session h s w) (human_attempt h a w))
          (human_world h s a w)
unfolding human save_attempt save_session
human-closes h s a message w = refl

-- `_human` raises nothing for a message that is not blank: it answers HUMAN_REQUIRED with the
-- message. The session is saved with the status HUMAN_REQUIRED, that terminal status and the path of
-- the result, the attempt is saved with the status HUMAN_REQUIRED, the record of the event, where it
-- has one, is succeeded and names the result, and every other record is as in the session given.
pub human_sound :
    (h : Host) (s : RepairSession) (a : RepairAttempt) (message : String) (w : World)
    → IsConsistent s
    → is_blank message ≡ false
    → (s' : RepairSession) × (a' : RepairAttempt) × (w' : World) × (human h s a message w
        ≡ (ok (human_result message), w'))
      × IsConsistent s'
      × ((k : String)
          → find_event s' k ≡ (
              if a.source_event_key == k
              then closed
                  (find_event s a.source_event_key)
                  (result_path h s a)
                  (h.utc_now (w.ticks + 1 + 1))
              else find_event s k))
      × (w'.sessions s.session_id ≡ some s')
      × (s'.status ≡ SessionStatus.human_required)
      × (s'.agent_terminal_status ≡ some "HUMAN_REQUIRED")
      × (s'.last_external_result_ref ≡ some (result_path h s a))
      × (a'.status ≡ AttemptStatus.human_required)
      × (w'.attempts
          ≡ update s.session_id
              (update a.attempt_id (some a') (w.attempts s.session_id))
              w.attempts)
      × (w'.acquisitions ≡ w.acquisitions)
unfolding save_attempt save_session find_event candidate_pair_valid
human_sound h s a message w v e =
    let t : RepairSession = human_session h s w in
    let b : RepairAttempt = human_attempt h a w in
    let w1 : World = human_world h s a w in
    let u : IsConsistent t = record {
      distinct = v.distinct;
      numbered = v.numbered;
      paired = v.paired;
    } in
    let (s', w', done, v', frame, finds, saved, kept, _, locks) =
      persist_external_result_sound h t b w1 u (human_result message) in
    let answered = ap (λ o. valid o w1) (human_required-valid message e) in
    (
      s',
      b,
      w',
      human-closes h s a message w
          ∙ bind-ok (valid (ExternalResults.human_required message)) (persist_external_result h t b)
              answered
          ∙ done,
      v',
      finds,
      saved,
      ap (λ (x : RepairSession). x.status) frame,
      ap (λ (x : RepairSession). x.agent_terminal_status) frame,
      ap (λ (x : RepairSession). x.last_external_result_ref) frame,
      refl,
      kept,
      locks,
    )
