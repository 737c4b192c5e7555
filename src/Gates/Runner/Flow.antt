-- ===== src/Gates/Runner/Flow.antt =====
-- What GateRunner.run does to the candidate and the run state (agent/gates/gate_runner.py).
use sql_self_healing_agent.Prelude.{
  ◌≡◌, refl, ◌↔◌, ◌⊎◌, inl, inr, Bool, true, false, Option, none, some, ◌++◌, map, arith, ap, ◌∙◌,
  Bool-cases,
}
use sql_self_healing_agent.Repair.Models.{PreReflectionResult}
use sql_self_healing_agent.Repair.Evaluator.{Reply}
use sql_self_healing_agent.Agent.Models.{
  AgentContext, AgentRunState, RunStatus, RunResultStatus, CandidateStatus,
}
use sql_self_healing_agent.Gates.Models.{Decision, GateRequest}
use sql_self_healing_agent.Gates.Runner.{
  GateRunner, GateSet, GateRun, run_request, run, delivers, candidate_feedback,
}

-- The verdicts with which a candidate is handed out: PASS, and PASS_WITH_WARNING where the request
-- allows medium risk.
abbrev pub IsDelivered : Bool → Decision → Type 0
IsDelivered allow d = (d ≡ Decision.pass) ⊎ ((d ≡ Decision.pass_with_warning) × (allow ≡ true))

delivers-IsDelivered : (allow : Bool) (d : Decision) → delivers allow d ≡ true → IsDelivered allow d
unfolding delivers
delivers-IsDelivered allow Decision.pass h = inl refl
delivers-IsDelivered allow Decision.pass_with_warning h = inr (refl, h)
delivers-IsDelivered allow Decision.reject h = cc
delivers-IsDelivered allow Decision.human_required h = cc

IsDelivered-delivers : (allow : Bool) (d : Decision) → IsDelivered allow d → delivers allow d ≡ true
unfolding delivers
IsDelivered-delivers allow d h = elim h [
  | inl e ↦ ap (delivers allow) e
  | inr (e, on) ↦ ap (delivers allow) e ∙ on
]

refused : (allow : Bool) (d : Decision) → ¬ (IsDelivered allow d) → delivers allow d ≡ false
refused allow d h = elim (Bool-cases (delivers allow d)) [
  | inl on ↦ elim (h (delivers-IsDelivered allow d on)) [ ]
  | inr off ↦ off
]

module _ {Tree : Type 0} (gates : GateSet Tree) (reply : Option (Reply PreReflectionResult))
    (runner : GateRunner) (context : AgentContext) (state : AgentRunState)
    (request : GateRequest) where
  abbrev r : GateRun
  r = run gates reply runner context state (some request)

  abbrev decision : Decision
  decision = (run_request gates reply request).1.decision

  abbrev Delivered : Type 0
  Delivered =
      (r.outcome.status ≡ RunResultStatus.candidate_ready)
      × (r.outcome.candidate_sql ≡ context.candidate.draft_sql)
      × (r.context.candidate.formal_sql ≡ context.candidate.draft_sql)
      × (r.context.candidate.status ≡ CandidateStatus.ready)
      × (r.run_state.status ≡ RunStatus.succeeded)

  answers_ready : delivers request.allow_medium_risk decision ≡ true → Delivered
  unfolding run
  answers_ready h = ground arith

  answers_delivered : IsDelivered request.allow_medium_risk decision → Delivered
  answers_delivered h = answers_ready (IsDelivered-delivers request.allow_medium_risk decision h)

  abbrev Refused : Type 0
  Refused =
      (r.outcome.candidate_sql ≡ none)
      × (r.context.candidate.formal_sql ≡ context.candidate.formal_sql)
      × (r.context.candidate.status ≡ CandidateStatus.gate_rejected)
      × (decision ≡ Decision.human_required
          → (r.outcome.status ≡ RunResultStatus.human_required)
            × (r.run_state.status ≡ RunStatus.human_required))
      × (¬ (decision ≡ Decision.human_required)
          → (r.outcome.status ≡ RunResultStatus.no_sql) × (r.run_state.status ≡ RunStatus.no_sql))

  answers_refusal : delivers request.allow_medium_risk decision ≡ false → Refused
  unfolding run
  answers_refusal h =
      (ground arith, ground arith, ground arith, λ e. ground arith, λ n. ground arith)

  never_ready :
      delivers request.allow_medium_risk decision ≡ false
      → ¬ (r.outcome.status ≡ RunResultStatus.candidate_ready)
  unfolding run
  never_ready h e = ground arith

  -- The feedback of the verdict is appended to that of the candidate, whatever the verdict.
  feedback_kept :
      r.context.candidate.gate_feedback
      ≡ context.candidate.gate_feedback
        ++ map candidate_feedback (run_request gates reply request).1.feedback
  unfolding run
  feedback_kept = ground arith

  is_ready :
      r.outcome.status ≡ RunResultStatus.candidate_ready
      → IsDelivered request.allow_medium_risk decision
  is_ready e = elim (Bool-cases (delivers request.allow_medium_risk decision)) [
    | inl on ↦ delivers-IsDelivered request.allow_medium_risk decision on
    | inr off ↦ elim (never_ready off e) [ ]
  ]

-- On a request, `run` answers CANDIDATE_READY exactly when the verdict is PASS, or PASS_WITH_WARNING
-- where the request allows medium risk. Then the draft SQL is handed out and becomes the formal SQL,
-- the candidate is READY and the run SUCCEEDED. Otherwise no SQL is handed out, the formal SQL is as
-- it was, the candidate is GATE_REJECTED, and answer and run state are HUMAN_REQUIRED for a verdict
-- HUMAN_REQUIRED and NO_SQL for any other. In both cases the feedback of the verdict is appended to
-- that of the candidate.
pub run-ready_iff :
    {Tree : Type 0} (gates : GateSet Tree) (reply : Option (Reply PreReflectionResult))
    (runner : GateRunner) (context : AgentContext) (state : AgentRunState) (request : GateRequest)
    → let r = run gates reply runner context state (some request) in
      let verdict = (run_request gates reply request).1 in
      ((r.outcome.status ≡ RunResultStatus.candidate_ready)
        ↔ IsDelivered request.allow_medium_risk verdict.decision)
      × (IsDelivered request.allow_medium_risk verdict.decision
          → (r.outcome.candidate_sql ≡ context.candidate.draft_sql)
            × (r.context.candidate.formal_sql ≡ context.candidate.draft_sql)
            × (r.context.candidate.status ≡ CandidateStatus.ready)
            × (r.run_state.status ≡ RunStatus.succeeded))
      × (¬ (IsDelivered request.allow_medium_risk verdict.decision)
          → (r.outcome.candidate_sql ≡ none)
            × (r.context.candidate.formal_sql ≡ context.candidate.formal_sql)
            × (r.context.candidate.status ≡ CandidateStatus.gate_rejected)
            × (verdict.decision ≡ Decision.human_required
                → (r.outcome.status ≡ RunResultStatus.human_required)
                  × (r.run_state.status ≡ RunStatus.human_required))
            × (¬ (verdict.decision ≡ Decision.human_required)
                → (r.outcome.status ≡ RunResultStatus.no_sql)
                  × (r.run_state.status ≡ RunStatus.no_sql)))
      × (r.context.candidate.gate_feedback
          ≡ context.candidate.gate_feedback ++ map candidate_feedback verdict.feedback)
run-ready_iff gates reply runner context state request = (
  (
    is_ready gates reply runner context state request,
    λ h. (answers_delivered gates reply runner context state request h).0,
  ),
  (λ h.
      let (_, sql, formal, ready, succeeded) =
        answers_delivered gates reply runner context state request h in
      (sql, formal, ready, succeeded)),
  (λ h.
      answers_refusal gates reply runner context state request
        (refused request.allow_medium_risk (run_request gates reply request).1.decision h)),
  feedback_kept gates reply runner context state request,
)
