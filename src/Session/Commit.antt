-- ===== src/Session/Commit.antt =====
-- CandidateCommitter of agent/gates/candidate_committer.py. The session and the attempt come back
-- as `commit` leaves them.
pub mod Guards
use sql_self_healing_agent.Prelude.{
  ℕ, String, ◌==◌, Bool, true, false, not, ◌&&◌, ◌||◌, Option, none, some, if◌then◌else◌, truthy,
  same_text, last?,
}
use sql_self_healing_agent.Core.{SessionStatus, AttemptStatus}
use sql_self_healing_agent.Agent.Models.{CandidateState, CandidateStatus}
use sql_self_healing_agent.Gates.Models.{
  GateResult, Decision, pass, pass_with_warning, reject, human_required,
}
use sql_self_healing_agent.Repair.Words.{codes}
use sql_self_healing_agent.Session.Models.{RepairSession, RepairAttempt, ArtifactRef}
use sql_self_healing_agent.Session.World.{
  Failure, raised, ok, World, Action, pure, raise, ◌>>=◌, ◌>>◌, Host, utc_now_iso,
}
use sql_self_healing_agent.Session.Store.{save_session, save_attempt}
use sql_self_healing_agent.Session.Artifacts.{exists}

abbrev pub is_ready : CandidateStatus → Bool
is_ready CandidateStatus.ready = true
is_ready _ = false

-- `gate_result.decision in {"PASS", "PASS_WITH_WARNING"}`
abbrev pub lets_through : Decision → Bool
lets_through pass = true
lets_through pass_with_warning = true
lets_through reject = false
lets_through human_required = false

module _ (h : Host) where
  unfoldable pub write_commit :
      RepairSession → RepairAttempt → String → Action (RepairSession × RepairAttempt)
  unfolding save_session save_attempt
  write_commit s a sql = do
    updated ← utc_now_iso h
    let s' = record s {
      latest_sql_candidate = some sql;
      latest_sql_candidate_attempt_id = some a.attempt_id;
      status = SessionStatus.sql_ready_pending_upstream;
      updated_at = updated;
    }
    now ← utc_now_iso h
    let a' = record a {
      sql_candidate = some sql;
      status = AttemptStatus.sql_ready;
      updated_at = now;
    }
    save_attempt s' a'
    save_session s'
    pure (s', a')

  -- The artifact must be in the store, sanitized and of this attempt.
  unfoldable pub commit_ref :
      Option ArtifactRef
      → String
      → RepairSession
      → RepairAttempt
      → Action (RepairSession × RepairAttempt)
  commit_ref none sql s a w = raise (raised "ValidationError") w
  commit_ref (some ref) sql s a w =
      if ref.session_id == s.session_id
        && same_text ref.attempt_id (some a.attempt_id)
        && ref.sanitized
        && exists h ref w
      then write_commit s a sql w
      else raise (raised "ValueError") w

  -- `candidate.draft_artifact_ref`
  unfoldable pub commit_reference :
      Option String
      → String
      → RepairSession
      → RepairAttempt
      → Action (RepairSession × RepairAttempt)
  unfolding commit_ref
  commit_reference none sql s a = raise (raised "ValueError")
  commit_reference (some reference) sql s a =
      if truthy reference
      then commit_ref (h.parse_ref reference) sql s a
      else raise (raised "ValueError")

  -- `session.attempt_ids[-1]`, and the hash
  unfoldable pub commit_owned :
      Option String
      → String
      → RepairSession
      → RepairAttempt
      → CandidateState
      → GateResult
      → Action (RepairSession × RepairAttempt)
  unfolding commit_reference
  commit_owned none sql s a c g = raise (raised "IndexError")
  commit_owned (some latest) sql s a c g =
      if not (a.attempt_id == latest) || a.source_event_key == ""
      then raise (raised "ValueError")
      else if not (h.sha256 (codes sql) == g.candidate_hash)
      then raise (raised "ValueError")
      else commit_reference c.draft_artifact_ref sql s a

  unfoldable pub commit_sql :
      Option String
      → RepairSession
      → RepairAttempt
      → CandidateState
      → GateResult
      → Action (RepairSession × RepairAttempt)
  unfolding commit_owned
  commit_sql none s a c g = raise (raised "ValueError")
  commit_sql (some sql) s a c g =
      if is_ready c.status && truthy sql && lets_through g.decision
      then commit_owned (last? s.attempt_ids) sql s a c g
      else raise (raised "ValueError")

  unfoldable pub commit :
      RepairSession
      → RepairAttempt
      → CandidateState
      → GateResult
      → Action (RepairSession × RepairAttempt)
  unfolding commit_sql
  commit s a c g = commit_sql c.formal_sql s a c g
