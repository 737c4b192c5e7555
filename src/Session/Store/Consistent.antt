-- ===== src/Session/Store/Consistent.antt =====
-- The invariant of a session, and the methods of SessionStore on a session that has it
-- (session/session_store.py).
use sql_self_healing_agent.Prelude.{
  ℕ, zero, suc, ◌+◌, ◌<◌, String, ◌==◌, ◌&&◌, ◌≡◌, refl, ap, ◌∙◌, true, false, Option, none, some,
  List, [], ◌∷◌, ◌++◌, if◌then◌else◌, last?, length, length-append, arith, eq_iff, eq_refl,
  contains, contains-append,
}
use sql_self_healing_agent.Core.{failed}
use sql_self_healing_agent.Session.Models.{
  EventProcessingStatus, UpstreamTaskEventRecord, RepairSession, RepairAttempt,
  candidate_pair_valid,
}
use sql_self_healing_agent.Session.Numbers.{attempt_name, attempt_name-injective}
use sql_self_healing_agent.Session.World.{ok, World, pure, Host, bind-ok}
use sql_self_healing_agent.Session.Store.{
  find_event, save_session, save_attempt, append_upstream_event, append_new, save_event_record,
  save_replaced, create_attempt, finish_event, open_attempt, new_attempt,
}
use sql_self_healing_agent.Session.Store.Records.{
  HasDistinctKeys, find_key-snoc_new, HasDistinctKeys-snoc, replace_record-Replaced,
}

-- `attempt_001` to `attempt_n`
unfoldable pub names : ℕ → List String
names zero = []
names (suc n) = names n ++ attempt_name (suc n) ∷ []

-- The events have distinct keys, the attempts are numbered in order, and the candidate and its
-- attempt stand together.
pub record IsConsistent (s : RepairSession) : Type 0 where
  pub distinct : HasDistinctKeys s.upstream_events
  pub numbered : s.attempt_ids ≡ names (length s.attempt_ids)
  pub paired : candidate_pair_valid s ≡ true

length-names : (n : ℕ) → length (names n) ≡ n
unfolding names
length-names zero = refl
length-names (suc n) =
    length-append {0} (names n) (attempt_name (suc n) ∷ []) ∙ omega (arith, length-names n)

numbered_next :
    (ids : List String) (n : ℕ)
    → ids ≡ names n
    → ids ++ attempt_name (n + 1) ∷ [] ≡ names (length (ids ++ attempt_name (n + 1) ∷ []))
unfolding names
numbered_next ids n e =
    let counted : length (ids ++ attempt_name (n + 1) ∷ []) ≡ suc n =
      length-append {0} ids (attempt_name (n + 1) ∷ [])
      ∙ omega (arith, ap (length {A = String}) e, length-names n) in
    rw counted (rw e (ap (λ k. names n ++ attempt_name k ∷ []) (omega arith)))

-- No earlier attempt has the next name.
fresh_name : (m n : ℕ) → n < m → contains (attempt_name m) (names n) ≡ false
unfolding names
fresh_name m zero h = refl
fresh_name m (suc n) h =
    contains-append (attempt_name m) (names n) (attempt_name (suc n) ∷ [])
    ∙ ground (
      arith,
      fresh_name m n (omega arith),
      eq_iff (attempt_name (suc n)) (attempt_name m),
      attempt_name-injective (suc n) m,
    )

-- Only the events and the time of the session have changed.
abbrev pub Kept : RepairSession → RepairSession → Type 0
Kept s s' = s' ≡ record s { upstream_events = s'.upstream_events; updated_at = s'.updated_at }

-- No other session has changed, no file, and not the set of the events in work.
abbrev pub Elsewhere : String → World → World → Type 0
Elsewhere id w w' =
    ((k : String) → (id == k) ≡ false → w'.sessions k ≡ w.sessions k)
    × (w'.files ≡ w.files)
    × (w'.active_event_keys ≡ w.active_event_keys)

module _ (h : Host) (s : RepairSession) (r : UpstreamTaskEventRecord) (w : World)
    (v : IsConsistent s) where
  -- A new event is recorded and the session saved.
  pub append_upstream_event-new :
      find_event s r.event_key ≡ none
      → (s' : RepairSession) × (w' : World) × (append_upstream_event h s r w ≡ (ok s', w'))
        × IsConsistent s'
        × ((k : String) → find_event s' k ≡ (if r.event_key == k then some r else find_event s k))
        × Kept s s'
        × (w'.sessions s.session_id ≡ some s')
        × (w'.attempts ≡ w.attempts)
        × (w'.acquisitions ≡ w.acquisitions)
        × Elsewhere s.session_id w w'
  unfolding append_upstream_event append_new find_event candidate_pair_valid
  append_upstream_event-new fresh = rw fresh (
    _,
    _,
    refl,
    record {
      distinct = HasDistinctKeys-snoc r s.upstream_events v.distinct fresh;
      numbered = v.numbered;
      paired = v.paired;
    },
    (λ k. find_key-snoc_new k r s.upstream_events fresh),
    refl,
    rw eq_refl refl,
    refl,
    refl,
    ((λ k other. rw other refl), refl, refl),
  )

  append-known :
      (x : UpstreamTaskEventRecord)
      → find_event s r.event_key ≡ some x
      → append_upstream_event h s r w ≡ (ok s, w)
  unfolding append_upstream_event append_new
  append-known x known = rw known refl

  abbrev Appended : Option UpstreamTaskEventRecord → RepairSession → Type 0
  Appended none s' =
      (k : String) → find_event s' k ≡ (if r.event_key == k then some r else find_event s k)
  Appended (some x) s' = s' ≡ s

  -- `append_upstream_event` raises nothing, keeps the session consistent, and records an event only
  -- when its key is new; every other key finds what it found before.
  pub append_upstream_event_sound :
      (s' : RepairSession) × (w' : World) × (append_upstream_event h s r w ≡ (ok s', w'))
      × IsConsistent s'
      × Appended (find_event s r.event_key) s'
  append_upstream_event_sound = on (find_event s r.event_key) refl
    where
      on :
          (o : Option UpstreamTaskEventRecord)
          → find_event s r.event_key ≡ o
          → (s' : RepairSession) × (w' : World) × (append_upstream_event h s r w ≡ (ok s', w'))
            × IsConsistent s'
            × Appended (find_event s r.event_key) s'
      on none fresh =
          let (s', w', done, v', finds, _, _, _, _, _) = append_upstream_event-new fresh in
          (s', w', done, v', rw fresh finds)
      on (some x) known = (s, w, append-known x known, v, rw known refl)

  -- Saving a record that the session has raises nothing, keeps the session consistent, and changes
  -- what its key finds to the record, and nothing else.
  pub save_event_record_sound :
      (x : UpstreamTaskEventRecord)
      → find_event s r.event_key ≡ some x
      → (s' : RepairSession) × (w' : World) × (save_event_record h s r w ≡ (ok s', w'))
        × IsConsistent s'
        × ((k : String) → find_event s' k ≡ (if r.event_key == k then some r else find_event s k))
        × (s'.attempt_ids ≡ s.attempt_ids)
        × Kept s s'
        × (w'.sessions s.session_id ≡ some s')
        × (w'.attempts ≡ w.attempts)
        × (w'.files ≡ w.files)
        × (w'.acquisitions ≡ w.acquisitions)
        × Elsewhere s.session_id w w'
  unfolding save_event_record save_replaced find_event candidate_pair_valid save_session
  save_event_record_sound x e =
      let (ys, p, (finds, keeps)) = replace_record-Replaced r x s.upstream_events e in
      rw p (
        _,
        _,
        refl,
        record { distinct = keeps v.distinct; numbered = v.numbered; paired = v.paired },
        finds,
        refl,
        refl,
        rw eq_refl refl,
        refl,
        refl,
        refl,
        ((λ k other. rw other refl), refl, refl),
      )

fresh_attempt :
    (s : RepairSession)
    → IsConsistent s
    → contains (attempt_name (length s.attempt_ids + 1)) s.attempt_ids ≡ false
fresh_attempt s v =
    ap (contains (attempt_name (length s.attempt_ids + 1))) v.numbered
    ∙ fresh_name (length s.attempt_ids + 1) (length s.attempt_ids) (omega arith)

written :
    (s : RepairSession) (a : RepairAttempt) (w : World) (sid aid : String)
    → (save_attempt s a w).1.attempts sid aid
      ≡ (if s.session_id == sid && a.attempt_id == aid then some a else w.attempts sid aid)
unfolding save_attempt
written s a w sid aid = ground (arith, eq_iff s.session_id sid)

-- `create_attempt` on a recorded FAILED event without an attempt raises nothing: the new attempt has
-- the next number and names the one before it, it is written under a name that no earlier attempt
-- has, the record of the event names it, and the session stays consistent.
module _ (h : Host) (s : RepairSession) (r x : UpstreamTaskEventRecord) (w : World)
    (v : IsConsistent s) where
  abbrev pub Opened : RepairSession → RepairAttempt → World → Type 0
  Opened s' a w' =
      IsConsistent s'
      × (a.attempt_no ≡ length s.attempt_ids + 1)
      × (a.previous_attempt_id ≡ last? s.attempt_ids)
      × (a.source_event_key ≡ r.event_key)
      × (s'.attempt_ids ≡ s.attempt_ids ++ a.attempt_id ∷ [])
      × (contains a.attempt_id s.attempt_ids ≡ false)
      × ((k : String)
          → find_event s' k ≡ (
              if r.event_key == k
              then some (record r {
                attempt_id = some a.attempt_id;
                processing_status = EventProcessingStatus.processing;
              })
              else find_event s k))
      × (w'.sessions s.session_id ≡ some s')
      × ((sid aid : String)
          → w'.attempts sid aid
            ≡ (if s.session_id == sid && a.attempt_id == aid then some a else w.attempts sid aid))

  open_attempt_sound :
      find_event s r.event_key ≡ some x
      → (s' : RepairSession) × (a : RepairAttempt) × (w' : World) × (open_attempt h failed none s r
            w
          ≡ (ok (s', a), w'))
        × Opened s' a w'
  unfolding open_attempt save_attempt candidate_pair_valid find_event
  open_attempt_sound e =
      let now = h.utc_now w.ticks in
      let a : RepairAttempt = new_attempt s r now in
      let s1 : RepairSession = record s {
        attempt_ids = s.attempt_ids ++ a.attempt_id ∷ [];
        updated_at = now;
      } in
      let w1 : World = (save_attempt s1 a (record w { ticks = w.ticks + 1 })).1 in
      let r1 : UpstreamTaskEventRecord = record r {
        attempt_id = some a.attempt_id;
        processing_status = EventProcessingStatus.processing;
      } in
      let v1 : IsConsistent s1 = record {
        distinct = v.distinct;
        numbered = numbered_next s.attempt_ids (length s.attempt_ids) v.numbered;
        paired = v.paired;
      } in
      let (s', w', done, v', finds, ids, _, saved, kept, _, _, _) =
        save_event_record_sound h s1 r1 w1 v1 x e in
      (
        s',
        a,
        w',
        bind-ok (save_event_record h s1 r1) (λ t. pure (t, a)) done,
        (
          v',
          refl,
          refl,
          refl,
          ids,
          fresh_attempt s v,
          finds,
          saved,
          λ sid aid. rw kept (written s a w sid aid),
        ),
      )

  pub create_attempt_sound :
      r.status ≡ failed
      → r.attempt_id ≡ none
      → find_event s r.event_key ≡ some x
      → (s' : RepairSession) × (a : RepairAttempt) × (w' : World) × (create_attempt h s r w
          ≡ (ok (s', a), w'))
        × Opened s' a w'
  unfolding create_attempt
  create_attempt_sound f n e =
      let (s', a, w', done, opened) = open_attempt_sound e in
      (s', a, w', (λ i. open_attempt h (f i) (n i) s r w) ∙ done, opened)

abbrev pub finished :
    UpstreamTaskEventRecord
    → Option String
    → Option String
    → EventProcessingStatus
    → String
    → UpstreamTaskEventRecord
finished r result_ref error_code status now = record r {
  processing_status = status;
  result_ref = result_ref;
  error_code = error_code;
  finished_at = some now;
}

-- `finish_event` on a record of the session raises nothing, and finishes it and no other.
pub finish_event_sound :
    (h : Host) (s : RepairSession) (r x : UpstreamTaskEventRecord)
    (result_ref error_code : Option String) (status : EventProcessingStatus) (w : World)
    → IsConsistent s
    → find_event s r.event_key ≡ some x
    → (s' : RepairSession) × (w' : World) × (finish_event h s r result_ref error_code status w
        ≡ (ok s', w'))
      × IsConsistent s'
      × ((k : String)
          → find_event s' k ≡ (
              if r.event_key == k
              then some (finished r result_ref error_code status (h.utc_now w.ticks))
              else find_event s k))
      × (s'.attempt_ids ≡ s.attempt_ids)
      × Kept s s'
      × (w'.sessions s.session_id ≡ some s')
      × (w'.attempts ≡ w.attempts)
      × (w'.files ≡ w.files)
      × (w'.acquisitions ≡ w.acquisitions)
      × Elsewhere s.session_id w w'
unfolding finish_event
finish_event_sound h s r x result_ref error_code status w v e =
    save_event_record_sound h s (finished r result_ref error_code status (h.utc_now w.ticks))
      (record w { ticks = w.ticks + 1 }) v x e
