-- ===== src/Session/Commit/Guards.antt =====
-- What `commit` of agent/gates/candidate_committer.py asks for before it writes.
use sql_self_healing_agent.Prelude.{
  String, ◌==◌, ◌≡◌, ap, sym, ◌∙◌, ◌⊎◌, inl, inr, refl, true, false, not, ◌&&◌, ◌||◌, Option, none,
  some, truthy, same_text, last?, arith, eq_iff, eq_refl, Bool-cases,
}
use sql_self_healing_agent.Core.{SessionStatus, AttemptStatus}
use sql_self_healing_agent.Session.Store.{save_session, save_attempt}
use sql_self_healing_agent.Agent.Models.{CandidateState}
use sql_self_healing_agent.Gates.Models.{GateResult}
use sql_self_healing_agent.Repair.Words.{codes}
use sql_self_healing_agent.Session.Models.{RepairSession, RepairAttempt, ArtifactRef}
use sql_self_healing_agent.Session.World.{Failure, Result, ok, err, World, Host, update}
use sql_self_healing_agent.Session.Artifacts.{exists}
use sql_self_healing_agent.Session.Commit.{
  is_ready, lets_through, write_commit, commit_ref, commit_reference, commit_owned, commit_sql,
  commit,
}

module _ (h : Host) (s : RepairSession) (a : RepairAttempt) (c : CandidateState) (g : GateResult)
    (w : World) where
  -- The candidate is ready and was let through under its hash, the attempt is the latest of the
  -- session and has a source event, and the artifact is in the store, sanitized and of this attempt.
  pub record IsCommittable (sql reference : String) (ref : ArtifactRef) : Type 0 where
    pub is_formal : c.formal_sql ≡ some sql
    pub not_empty : truthy sql ≡ true
    pub status_ready : is_ready c.status ≡ true
    pub gate_passed : lets_through g.decision ≡ true
    pub same_hash : h.sha256 (codes sql) ≡ g.candidate_hash
    pub is_latest : last? s.attempt_ids ≡ some a.attempt_id
    pub has_source : (a.source_event_key == "") ≡ false
    pub has_reference : c.draft_artifact_ref ≡ some reference
    pub is_reference : truthy reference ≡ true
    pub parsed : h.parse_ref reference ≡ some ref
    pub of_session : ref.session_id ≡ s.session_id
    pub of_attempt : ref.attempt_id ≡ some a.attempt_id
    pub is_sanitized : ref.sanitized ≡ true
    pub is_stored : exists h ref w ≡ true

  -- A committable candidate is written.
  commit-writes :
      (sql reference : String) (ref : ArtifactRef)
      → IsCommittable sql reference ref
      → commit h s a c g w ≡ write_commit h s a sql w
  unfolding commit commit_sql commit_owned commit_reference commit_ref
  commit-writes sql reference ref v =
      rw
        (
          v.is_formal, v.status_ready, v.not_empty, v.gate_passed, v.is_latest, eq_refl,
          v.has_source, v.same_hash,
        )
        (rw
          (
            eq_refl, v.has_reference, v.is_reference, v.parsed, v.is_stored, v.of_session,
            v.of_attempt, v.is_sanitized,
          )
          (rw (eq_refl s.session_id, eq_refl a.attempt_id) refl))

  module _ (r : RepairSession × RepairAttempt) (w' : World) (sql : String) where
    abbrev Stored : ArtifactRef → Type 0
    Stored ref =
        (ref.session_id ≡ s.session_id)
        × (ref.attempt_id ≡ some a.attempt_id)
        × (ref.sanitized ≡ true)
        × (exists h ref w ≡ true)

    same_text→eq : (o : Option String) (t : String) → same_text o (some t) ≡ true → o ≡ some t
    same_text→eq none t e = cc
    same_text→eq (some x) t e = ap some ((eq_iff x t).0 e)

    commit_ref-ok :
        (o : Option ArtifactRef)
        → commit_ref h o sql s a w ≡ (ok r, w')
        → (ref : ArtifactRef) × (o ≡ some ref) × Stored ref
    unfolding commit_ref
    commit_ref-ok none e = cc
    commit_ref-ok (some ref) e = (
      ref,
      refl,
      ground (arith, eq_iff ref.session_id s.session_id, same_text→eq ref.attempt_id a.attempt_id),
    )

    commit_reference-ok :
        (o : Option String)
        → commit_reference h o sql s a w ≡ (ok r, w')
        → (reference : String) × (o ≡ some reference)
          × (truthy reference ≡ true)
          × (commit_ref h (h.parse_ref reference) sql s a w ≡ (ok r, w'))
    unfolding commit_reference
    commit_reference-ok none e = cc
    commit_reference-ok (some reference) e = (reference, refl, ground arith, ground arith)

    commit_owned-ok :
        (o : Option String)
        → commit_owned h o sql s a c g w ≡ (ok r, w')
        → (o ≡ some a.attempt_id)
          × ((a.source_event_key == "") ≡ false)
          × (h.sha256 (codes sql) ≡ g.candidate_hash)
          × (commit_reference h c.draft_artifact_ref sql s a w ≡ (ok r, w'))
    unfolding commit_owned
    commit_owned-ok none e = cc
    commit_owned-ok (some latest) e =
        ground (arith, eq_iff a.attempt_id latest, eq_iff (h.sha256 (codes sql)) g.candidate_hash)

  commit_sql-ok :
      (r : RepairSession × RepairAttempt) (w' : World) (o : Option String)
      → commit_sql h o s a c g w ≡ (ok r, w')
      → (sql : String) × (o ≡ some sql)
        × (is_ready c.status ≡ true)
        × (truthy sql ≡ true)
        × (lets_through g.decision ≡ true)
        × (commit_owned h (last? s.attempt_ids) sql s a c g w ≡ (ok r, w'))
  unfolding commit_sql
  commit_sql-ok r w' none e = cc
  commit_sql-ok r w' (some sql) e =
      (sql, refl, ground arith, ground arith, ground arith, ground arith)

  -- Only a committable candidate is written.
  commit-IsCommittable :
      (r : RepairSession × RepairAttempt) (w' : World)
      → commit h s a c g w ≡ (ok r, w')
      → (sql reference : String) × (ref : ArtifactRef) × IsCommittable sql reference ref
  unfolding commit
  commit-IsCommittable r w' e =
      let (sql, formal, ready, full, passed, e1) = commit_sql-ok r w' c.formal_sql e in
      let (latest, source, hash, e2) = commit_owned-ok r w' sql (last? s.attempt_ids) e1 in
      let (reference, given, named, e3) = commit_reference-ok r w' sql c.draft_artifact_ref e2 in
      let (ref, parsed, (session, attempt, clean, stored)) =
        commit_ref-ok r w' sql (h.parse_ref reference) e3 in
      (
        sql,
        reference,
        ref,
        record {
          is_formal = formal;
          not_empty = full;
          status_ready = ready;
          gate_passed = passed;
          same_hash = hash;
          is_latest = latest;
          has_source = source;
          has_reference = given;
          is_reference = named;
          parsed = parsed;
          of_session = session;
          of_attempt = attempt;
          is_sanitized = clean;
          is_stored = stored;
        },
      )

  -- The session and the attempt that a commit of the text leaves are saved under their names, agree
  -- on the text and the attempt, and wait for the upstream; no other session, attempt or file changes.
  abbrev pub Committed : String → RepairSession × RepairAttempt → World → Type 0
  Committed sql (s', a') w' =
      (s'.latest_sql_candidate ≡ some sql)
      × (s'.latest_sql_candidate_attempt_id ≡ some a.attempt_id)
      × (s'.status ≡ SessionStatus.sql_ready_pending_upstream)
      × (a'.sql_candidate ≡ some sql)
      × (a'.status ≡ AttemptStatus.sql_ready)
      × (w'.sessions ≡ update s.session_id (some s') w.sessions)
      × (w'.attempts
          ≡ update s.session_id (update a.attempt_id (some a') (w.attempts s.session_id))
              w.attempts)
      × (w'.files ≡ w.files)

  write_commit_lem :
      (sql : String)
      → (r : RepairSession × RepairAttempt) × (w' : World) × (write_commit h s a sql w ≡ (ok r, w'))
        × Committed sql r w'
  unfolding write_commit save_session save_attempt
  write_commit_lem sql = (_, _, refl, (refl, refl, refl, refl, refl, refl, refl, refl))

  abbrev Answers : String → Result (RepairSession × RepairAttempt) × World → Type 0
  Answers sql m = ((e : Failure) × (m ≡ (err e, w))) ⊎ (m ≡ write_commit h s a sql w)

  commit_ref-Answers :
      (o : Option ArtifactRef) (sql : String) → Answers sql (commit_ref h o sql s a w)
  unfolding commit_ref
  commit_ref-Answers none sql = inl (_, refl)
  commit_ref-Answers (some ref) sql =
      elim (Bool-cases (
        ref.session_id == s.session_id
        && same_text ref.attempt_id (some a.attempt_id)
        && ref.sanitized
        && exists h ref w)) [ inl kept ↦ rw kept (inr refl) | inr lost ↦ rw lost (inl (_, refl)) ]

  commit_reference-Answers :
      (o : Option String) (sql : String) → Answers sql (commit_reference h o sql s a w)
  unfolding commit_reference
  commit_reference-Answers none sql = inl (_, refl)
  commit_reference-Answers (some reference) sql = elim (Bool-cases (truthy reference)) [
    | inl given ↦ rw given (commit_ref-Answers (h.parse_ref reference) sql)
    | inr empty ↦ rw empty (inl (_, refl))
  ]

  commit_owned-Answers :
      (o : Option String) (sql : String) → Answers sql (commit_owned h o sql s a c g w)
  unfolding commit_owned
  commit_owned-Answers none sql = inl (_, refl)
  commit_owned-Answers (some latest) sql =
      elim (Bool-cases (not (a.attempt_id == latest) || a.source_event_key == "")) [
        | inl other ↦ rw other (inl (_, refl))
        | inr own ↦ elim (Bool-cases (not (h.sha256 (codes sql) == g.candidate_hash))) [
          | inl differs ↦ rw (own, differs) (inl (_, refl))
          | inr same ↦ rw (own, same) (commit_reference-Answers c.draft_artifact_ref sql)
        ]
      ]

  commit_sql-Answers : (o : Option String) → (sql : String) × Answers sql (commit_sql h o s a c g w)
  unfolding commit_sql
  commit_sql-Answers none = ("", inl (_, refl))
  commit_sql-Answers (some sql) =
      elim (Bool-cases (is_ready c.status && truthy sql && lets_through g.decision)) [
        | inl good ↦ rw good (sql, commit_owned-Answers (last? s.attempt_ids) sql)
        | inr bad ↦ rw bad (sql, inl (_, refl))
      ]

  answered_by_sql : (sql : String) × Answers sql (commit h s a c g w)
  unfolding commit
  answered_by_sql = commit_sql-Answers c.formal_sql

  abbrev pub Refuses : Type 0
  Refuses =
      (e : Failure) × (commit h s a c g w ≡ (err e, w))
      × ((sql reference : String) (ref : ArtifactRef) → ¬ IsCommittable sql reference ref)

  abbrev pub Commits : Type 0
  Commits =
      (sql reference : String) × (ref : ArtifactRef) × IsCommittable sql reference ref
      × ((r : RepairSession × RepairAttempt) × (w' : World) × (commit h s a c g w ≡ (ok r, w'))
          × Committed sql r w')

  -- CandidateCommitter.commit succeeds on a committable candidate, and leaves then what `Committed`
  -- says of it; on any other it raises and leaves the world alone.
  pub commit-decides : Refuses ⊎ Commits
  commit-decides = decided answered_by_sql
    where
      decided : (sql : String) × Answers sql (commit h s a c g w) → Refuses ⊎ Commits
      decided (_, inl (e, p)) = inl (
        e,
        p,
        λ sql reference ref v.
            let (r, w', q, _) = write_commit_lem sql in
            cc (sym p ∙ commit-writes sql reference ref v ∙ q),
      )
      decided (sql, inr p) =
          let (r, w', q, _) = write_commit_lem sql in
          let (sql', reference, ref, v) = commit-IsCommittable r w' (p ∙ q) in
          let (r', w'', q', done) = write_commit_lem sql' in
          inr (sql', reference, ref, v, (r', w'', commit-writes sql' reference ref v ∙ q', done))
