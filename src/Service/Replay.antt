-- ===== src/Service/Replay.antt =====
-- A FAILED event that is delivered again (orchestrator/repair_agent_service.py).
use sql_self_healing_agent.Prelude.{
  ◌+◌, String, ◌==◌, ◌≡◌, refl, sym, ap, ◌∙◌, true, Option, some, truthy, eq_iff, Bool-cases, inl,
  inr,
}
use Prim.Native.String.{◌++◌ as str_append}
use text.Mathlib.TextLemmas.{append-ne-nil_of_right_ne-nil}
use sql_self_healing_agent.Core.{AgentExternalResult, UpstreamTaskEvent}
use sql_self_healing_agent.Session.Models.{UpstreamTaskEventRecord, RepairSession, RepairAttempt}
use sql_self_healing_agent.Session.Keys.{session_id_for_task, build_event_key}
use sql_self_healing_agent.Session.World.{ok, World, Host, Saved, bind-ok}
use sql_self_healing_agent.Session.Store.{
  load_for_task, load_or_create_for_event, create_missing, find_event,
}
use sql_self_healing_agent.Session.Store.Consistent.{IsConsistent}
use sql_self_healing_agent.Session.Artifacts.{legacy_artifact_path}
use sql_self_healing_agent.Service.Models.{ServiceParts, answered}
use sql_self_healing_agent.Service.Results.{processed_result, read_result, persist_external_result}
use sql_self_healing_agent.Service.Recovery.{take_processed, take_failed, open_event}
use sql_self_healing_agent.Service.Failed.{after_opening, handle_failed_event}
use sql_self_healing_agent.Service.Closing.{result_path, closed, persist_external_result_sound}

module _ (h : Host) (parts : ServiceParts) (event : UpstreamTaskEvent) (w : World) where
  load_known :
      (s : RepairSession)
      → w.sessions (session_id_for_task event.id) ≡ some s
      → load_or_create_for_event h event w ≡ (ok s, w)
  unfolding load_or_create_for_event load_for_task create_missing
  load_known s e = rw e refl

  read_processed :
      (result_ref : Option String) (path text : String) (result : AgentExternalResult)
      → result_ref ≡ some path
      → truthy path ≡ true
      → w.files path ≡ some text
      → h.parse_result text ≡ some result
      → processed_result h result_ref w ≡ (ok (some result), w)
  unfolding processed_result read_result
  read_processed result_ref path text result e full file parsed = rw (e, full, file, parsed) refl

  take_known :
      (s : RepairSession) (r : UpstreamTaskEventRecord) (result : AgentExternalResult)
      → processed_result h r.result_ref w ≡ (ok (some result), w)
      → take_failed h (some r) event s w ≡ (ok (answered result), w)
  unfolding take_failed take_processed
  take_known s r result e =
      bind-ok (processed_result h r.result_ref)
        (λ p. take_processed h p (build_event_key h.sha256 event) s r) e

  open_known :
      (s : RepairSession) (r : UpstreamTaskEventRecord) (result : AgentExternalResult)
      → w.sessions (session_id_for_task event.id) ≡ some s
      → find_event s (build_event_key h.sha256 event) ≡ some r
      → processed_result h r.result_ref w ≡ (ok (some result), w)
      → open_event h event w ≡ (ok (answered result), w)
  unfolding open_event
  open_known s r result known found e =
      bind-ok (load_or_create_for_event h event)
        (λ t. take_failed h (find_event t (build_event_key h.sha256 event)) event t)
        (load_known s known)
      ∙ ap (λ o. take_failed h o event s w) found
      ∙ take_known s r result e

handle_open :
    (h : Host) (parts : ServiceParts) (event : UpstreamTaskEvent) (w : World)
    (result : AgentExternalResult)
    → h.lock_free w.acquisitions ≡ true
    → open_event h event (record w { acquisitions = w.acquisitions + 1 })
      ≡ (ok (answered result), record w { acquisitions = w.acquisitions + 1 })
    → handle_failed_event h parts event w
      ≡ (ok result, record w { acquisitions = w.acquisitions + 1 })
unfolding handle_failed_event after_opening
handle_open h parts event w result free e = rw (free, e) refl

truthy_path : (a b : String) → truthy (str_append a (String.◌∷◌ "/" b)) ≡ true
truthy_path a b = elim (Bool-cases (str_append a (String.◌∷◌ "/" b) == "")) [
  | inl empty ↦ absurd (
      append-ne-nil_of_right_ne-nil a {t = String.◌∷◌ "/" b} (λ e. cc)
        ((eq_iff (str_append a (String.◌∷◌ "/" b)) "").0 empty))
  | inr full ↦ rw full refl
]

result_path-truthy :
    (h : Host) (s : RepairSession) (a : RepairAttempt) → truthy (result_path h s a) ≡ true
unfolding legacy_artifact_path
result_path-truthy h s a = truthy_path h.base_dir _

-- What the closed record of the event names
closed-found :
    (o : Option UpstreamTaskEventRecord) (r : UpstreamTaskEventRecord) (path now : String)
    → o ≡ some r
    → (r' : UpstreamTaskEventRecord) × (closed o path now ≡ some r') × (r'.result_ref ≡ some path)
closed-found o r path now e = rw e (_, refl, refl)

-- Once `_persist_external_result` has answered a FAILED event that its session records, delivering
-- the event again runs nothing: the answer is what the saved result reads back as, and only a lock
-- was taken.
module _ (h : Host) (parts : ServiceParts) (event : UpstreamTaskEvent) (s : RepairSession)
    (a : RepairAttempt) (r : UpstreamTaskEventRecord) (result seen : AgentExternalResult)
    (w : World) where
  pub handle_failed_event-persisted :
      IsConsistent s
      → s.session_id ≡ session_id_for_task event.id
      → a.source_event_key ≡ build_event_key h.sha256 event
      → find_event s (build_event_key h.sha256 event) ≡ some r
      → h.parse_result (h.sanitize (h.dumps (Saved.external_result result))) ≡ some seen
      → h.lock_free w.acquisitions ≡ true
      → (w' : World) × (persist_external_result h s a result w ≡ (ok result, w'))
        × (handle_failed_event h parts event w'
            ≡ (ok seen, record w' { acquisitions = w'.acquisitions + 1 }))
  handle_failed_event-persisted v own key found parsed free =
      let (s', w', done, v', _, finds, saved, kept, file, locks) =
        persist_external_result_sound h s a w v result in
      let at_key =
        finds (build_event_key h.sha256 event)
        ∙ rw ((eq_iff a.source_event_key (build_event_key h.sha256 event)).1 key) refl in
      let (r', closes, names) =
        closed-found (find_event s a.source_event_key) r (result_path h s a) (h.utc_now w.ticks)
          (ap (find_event s) key ∙ found) in
      let w1 : World = record w' { acquisitions = w'.acquisitions + 1 } in
      let read =
        read_processed h parts event w1 r'.result_ref (result_path h s a) _ seen names
          (result_path-truthy h s a) file parsed in
      (
        w',
        done,
        handle_open h parts event w' seen (ap h.lock_free locks ∙ free) (
            open_known h parts event w1 s' r' seen (ap w'.sessions (sym own) ∙ saved)
              (at_key ∙ closes) read),
      )
