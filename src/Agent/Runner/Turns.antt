-- ===== src/Agent/Runner/Turns.antt =====
-- How AgentRunner.run hands out a result: by itself, or from the candidate gate.
use sql_self_healing_agent.Prelude.{
  ℕ, String, ◌≡◌, refl, sym, ap, subst, true, false, Option, none, some, arith, Bool-cases, inl,
  inr, some_text, same_text,
}
use sql_self_healing_agent.Agent.Models.{
  AgentAction, WorkspaceValue, AgentContext, AgentRunState, AgentRunLimits, RunStatus,
  RunResultStatus, WorkspaceStatus, CandidateStatus, Phase,
}
use sql_self_healing_agent.Agent.Planning.Structure.{IsWellFormed}
use sql_self_healing_agent.Agent.Runner.{
  Parts, Judgement, judged, gate_raised, is_running, is_candidate_ready, run_result, workspace_get,
  backed, finish, hand_out, propose,
}
use sql_self_healing_agent.Agent.Runner.Spec.{Respects, Laws, Inv, IsSound}

pub Inv-Respects :
    (limits : AgentRunLimits) (c c' : AgentContext) (s s' : AgentRunState)
    → Respects c c' s s'
    → Inv limits c s
    → Inv limits c' s'
Inv-Respects limits c c' s s' r i = record {
  plan = subst IsWellFormed (sym r.plan) i.plan;
  steps = omega (arith, r.counts.steps, i.steps);
  tool_calls = omega (arith, r.counts.tool_calls, i.tool_calls);
  sub_agent_calls = omega (arith, r.counts.sub_agent_calls, i.sub_agent_calls);
  revisions = omega (arith, r.counts.revisions, i.revisions);
}

module _ {W : Type 0} (parts : Parts W) (laws : Laws parts) where
  open parts use {limits}

  -- A run that the runner itself ends is settled: it hands out no candidate.
  pub finish-IsSettled :
      (n : ℕ) (status : RunStatus) (outcome : RunResultStatus) (stop reason : Option String) (w : W)
      (c : AgentContext) (s : AgentRunState)
      → Inv limits c s
      → is_running status ≡ false
      → is_candidate_ready outcome ≡ false
      → IsSound parts n (finish parts status outcome stop reason w c s)
  unfolding run_result
  finish-IsSettled n status outcome stop reason w c s i off hides = (
    record {
      plan = i.plan;
      steps = i.steps;
      tool_calls = i.tool_calls;
      sub_agent_calls = i.sub_agent_calls;
      revisions = i.revisions;
    },
    off,
    λ e. ground (arith, ap is_candidate_ready e),
  )

  -- What it takes for a candidate to be backed by the workspace.
  backed-facts :
      (c : AgentContext) (a : AgentAction) (v : WorkspaceValue)
      → backed c a (some v) ≡ true
      → (v.status ≡ WorkspaceStatus.available)
        × (some_text v.summary ≡ true)
        × (some_text v.artifact_ref ≡ true)
        × (same_text c.candidate.draft_artifact_ref v.artifact_ref ≡ true)
  unfolding backed
  backed-facts c a v h = (ground arith, ground arith, ground arith, ground arith)

  abbrev drafted : AgentContext → WorkspaceValue → AgentContext
  drafted c v = record c {
    candidate = record (c.candidate) { draft_sql = v.summary; status = CandidateStatus.draft };
    phase = Phase.gating;
  }

  pub propose-IsSound :
      (n : ℕ) (w : W) (c : AgentContext) (s : AgentRunState) (a : AgentAction)
      (v : Option WorkspaceValue)
      → Inv limits c s
      → workspace_get "candidate_sql" c.workspace ≡ v
      → IsSound parts n (propose parts w c s a v)
  unfolding propose
  propose-IsSound n w c s a none i e =
      finish-IsSettled n RunStatus.human_required RunResultStatus.human_required
        (some "NO_CANDIDATE_ARTIFACT") (some "NO_CANDIDATE_ARTIFACT") w c s i refl refl
  propose-IsSound n w c s a (some v) i e = elim (Bool-cases (backed c a (some v))) [
    | inr off ↦ rw off (
        finish-IsSettled n RunStatus.human_required RunResultStatus.human_required
          (some "NO_CANDIDATE_ARTIFACT") (some "NO_CANDIDATE_ARTIFACT") w c s i refl refl)
    | inl on ↦ rw on (judge (parts.gate w (drafted c v) s) refl (backed-facts c a v on))
  ]
    where
      judge :
          (j : Judgement W)
          → parts.gate w (drafted c v) s ≡ j
          → (v.status ≡ WorkspaceStatus.available)
            × (some_text v.summary ≡ true)
            × (some_text v.artifact_ref ≡ true)
            × (same_text c.candidate.draft_artifact_ref v.artifact_ref ≡ true)
          → IsSound parts n (hand_out parts j)
      judge gate_raised g facts = tt
      judge (judged w' c' s' r) g (available, full, stored, same) =
          let (respects, off) = laws.judges w (drafted c v) s w' c' s' r g in
          (
            Inv-Respects limits (drafted c v) c' (record s { status = s'.status }) s' respects
                (record {
                  plan = i.plan;
                  steps = i.steps;
                  tool_calls = i.tool_calls;
                  sub_agent_calls = i.sub_agent_calls;
                  revisions = i.revisions;
                }),
            off,
            λ ready. record {
              before = w;
              context = drafted c v;
              state = s;
              answer = g;
              value = v;
              in_workspace = e;
              available = available;
              draft = refl;
              not_empty = full;
              has_artifact = stored;
              same_artifact = same;
              is_draft = refl;
              gating = refl;
            },
          )
