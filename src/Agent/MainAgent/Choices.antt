-- ===== src/Agent/MainAgent/Choices.antt =====
-- What DeterministicMainAgent chooses, from the context itself or from the prepared input.
use sql_self_healing_agent.Prelude.{
  String, ◌≡◌, refl, ◌↔◌, ◌⊎◌, ap, true, false, Option, none, some, List, [], ◌∷◌, ◌==◌, arith,
  is_none, truthy, is_blank, not, ◌∙◌, sym, Option-cases, Bool-cases, eq_iff, inl, inr,
}
use sql_self_healing_agent.Agent.Models.{
  ActionType, AgentAction, action_valid, WorkspaceStatus, WorkspaceValue, AgentContext,
  AgentRunState,
}
use sql_self_healing_agent.Agent.Runner.{workspace_get}
use sql_self_healing_agent.Agent.MainAgent.{
  MainInput, full, prepared, status_text, summary_text, workspace_summaries, summaries_get,
  has_evidence, diagnosis_text, candidate_text, wants_sub_agent, choose_action, construct,
  next_action, usable,
}

-- All the evidence that a repair needs is there.
pub record HasAllEvidence (input : MainInput) : Type 0 where
  pub log : has_evidence "log_digest" input ≡ true
  pub diagnosis : has_evidence "diagnosis" input ≡ true
  pub metadata : has_evidence "metadata_snapshot" input ≡ true
  pub memory : has_evidence "memory_retrieval" input ≡ true
  pub plan : has_evidence "repair_plan" input ≡ true
  pub candidate : has_evidence "candidate_sql" input ≡ true

-- All the evidence is there and no sub-agent is wanted.
abbrev pub IsReadyToPropose : MainInput → AgentRunState → Type 0
IsReadyToPropose input state = HasAllEvidence input × (wants_sub_agent input state ≡ false)

choose_action-propose_iff :
    (input : MainInput) (state : AgentRunState)
    → ((choose_action input state).type ≡ ActionType.propose_sql_candidate)
      ↔ (IsReadyToPropose input state × (usable (candidate_text input) ≡ true))
unfolding choose_action
choose_action-propose_iff input state = (
  λ e. (
    (
      record {
        log = ground arith;
        diagnosis = ground arith;
        metadata = ground arith;
        memory = ground arith;
        plan = ground arith;
        candidate = ground arith;
      },
      ground arith,
    ),
    ground arith,
  ),
  λ ((all, free), good). ground (
    arith, all.log, all.diagnosis, all.metadata, all.memory, all.plan, all.candidate, free, good,
  ),
)

-- The action that proposes a text carries the candidate of the workspace.
choose_action-candidate :
    (input : MainInput) (state : AgentRunState)
    → (choose_action input state).type ≡ ActionType.propose_sql_candidate
    → (choose_action input state).candidate_sql ≡ candidate_text input
unfolding choose_action
choose_action-candidate input state e = ground arith

-- Only a proposal can lack what its type requires: a text that is not blank.
choose_action-valid :
    (input : MainInput) (state : AgentRunState) (s : String)
    → (choose_action input state).type ≡ ActionType.propose_sql_candidate
    → candidate_text input ≡ some s
    → action_valid (choose_action input state) ≡ not (is_blank s)
unfolding choose_action action_valid
choose_action-valid input state s p e = ground (arith, e)

other_action-valid :
    (input : MainInput) (state : AgentRunState)
    → ¬ ((choose_action input state).type ≡ ActionType.propose_sql_candidate)
    → action_valid (choose_action input state) ≡ true
unfolding choose_action action_valid
other_action-valid input state n = ground arith

not_blank-truthy : (s : String) → is_blank s ≡ false → truthy s ≡ true
unfolding is_blank
not_blank-truthy s e = elim (Bool-cases (s == "")) [
  | inl same ↦ cc (sym e ∙ ap is_blank ((eq_iff s "").0 same))
  | inr other ↦ ap not other
]

construct-valid : (a : AgentAction) → action_valid a ≡ true → construct a ≡ some a
unfolding construct
construct-valid a e = rw e refl

construct-none : (a : AgentAction) → action_valid a ≡ false → construct a ≡ none
unfolding construct
construct-none a e = rw e refl

construct-some : (a b : AgentAction) → construct a ≡ some b → (action_valid a ≡ true) × (a ≡ b)
unfolding construct
construct-some a b e = (ground arith, ground arith)

construct-fails : (a : AgentAction) → construct a ≡ none → action_valid a ≡ false
unfolding construct
construct-fails a e = ground arith

proposal_or_other :
    (t : ActionType)
    → (t ≡ ActionType.propose_sql_candidate) ⊎ (¬ (t ≡ ActionType.propose_sql_candidate))
proposal_or_other ActionType.propose_sql_candidate = inl refl
proposal_or_other ActionType.tool_call = inr (λ e. cc)
proposal_or_other ActionType.update_plan = inr (λ e. cc)
proposal_or_other ActionType.run_sub_agent = inr (λ e. cc)
proposal_or_other ActionType.return_no_sql = inr (λ e. cc)
proposal_or_other ActionType.return_human_required = inr (λ e. cc)

usable-text :
    (o : Option String)
    → usable o ≡ true
    → (s : String) × (o ≡ some s) × (truthy s ≡ true) × ((s == "None") ≡ false)
usable-text none u = cc
usable-text (some s) u = (s, refl, ground arith, ground arith)

text-usable :
    (o : Option String) (s : String)
    → o ≡ some s
    → truthy s ≡ true
    → (s == "None") ≡ false
    → usable o ≡ true
text-usable o s e t n = ap usable e ∙ ground (arith, t, n)

module _ (input : MainInput) (state : AgentRunState) where
  -- A candidate that is there, is not empty and is not the text None
  abbrev Candidate : (String → Type 0) → Type 0
  Candidate P = (s : String) × (candidate_text input ≡ some s) × ((s == "None") ≡ false) × P s

  proposed_candidate :
      (choose_action input state).type ≡ ActionType.propose_sql_candidate
      → IsReadyToPropose input state
        × Candidate
            (λ s. (truthy s ≡ true) × (action_valid (choose_action input state) ≡ not (is_blank s)))
  proposed_candidate p =
      let (ready, good) = (choose_action-propose_iff input state).0 p in
      let (s, e, t, n) = usable-text (candidate_text input) good in
      (ready, (s, e, n, (t, choose_action-valid input state s p e)))

  candidate_proposed :
      (s : String)
      → IsReadyToPropose input state
      → candidate_text input ≡ some s
      → (s == "None") ≡ false
      → truthy s ≡ true
      → ((choose_action input state).type ≡ ActionType.propose_sql_candidate)
        × (action_valid (choose_action input state) ≡ not (is_blank s))
  candidate_proposed s ready e n t =
      let p =
        (choose_action-propose_iff input state).1
          (ready, text-usable (candidate_text input) s e t n) in
      (p, choose_action-valid input state s p e)

  -- The agent proposes a candidate exactly when all evidence is there, no sub-agent is wanted, and
  -- the workspace has a candidate that is not blank and not the text None. What it proposes is that
  -- candidate. The action cannot be made, and ValidationError is raised, exactly when all this holds
  -- but the candidate is blank without being empty.
  pub next_action-propose_iff :
      (((a : AgentAction) × (next_action input state ≡ some a)
          × (a.type ≡ ActionType.propose_sql_candidate))
        ↔ (IsReadyToPropose input state
            × ((s : String) × (candidate_text input ≡ some s)
                × ((s == "None") ≡ false)
                × (is_blank s ≡ false))))
      × ((a : AgentAction)
          → next_action input state ≡ some a
          → a.type ≡ ActionType.propose_sql_candidate
          → a.candidate_sql ≡ candidate_text input)
      × ((next_action input state ≡ none) ↔ (
          IsReadyToPropose input state
          × ((s : String) × (candidate_text input ≡ some s)
              × ((s == "None") ≡ false)
              × (truthy s ≡ true)
              × (is_blank s ≡ true))))
  unfolding next_action
  next_action-propose_iff = (
    (
      λ (a, e, p).
          let (valid, same) = construct-some (choose_action input state) a e in
          let (ready, (s, found, other, (_, v))) =
            proposed_candidate (ap (λ (x : AgentAction). x.type) same ∙ p) in
          (ready, (s, found, other, ground (arith, sym v ∙ valid))),
      λ (ready, (s, found, other, dark)).
          let (p, v) = candidate_proposed s ready found other (not_blank-truthy s dark) in
          (choose_action input state, construct-valid _ (v ∙ ap not dark), p),
    ),
    (λ a e p.
        let (_, same) = construct-some (choose_action input state) a e in
        ap (λ (x : AgentAction). x.candidate_sql) (sym same)
        ∙ choose_action-candidate input state (ap (λ (x : AgentAction). x.type) same ∙ p)),
    (
      λ e. elim (proposal_or_other (choose_action input state).type) [
        | inl p ↦
            let (ready, (s, found, other, (t, v))) = proposed_candidate p in
            (
              ready,
              (
                s,
                found,
                other,
                t,
                ground (arith, sym v ∙ construct-fails (choose_action input state) e),
              ),
            )
        | inr n ↦
            cc (
              sym (other_action-valid input state n)
              ∙ construct-fails (choose_action input state) e)
      ],
      λ (ready, (s, found, other, t, blank)).
          let (p, v) = candidate_proposed s ready found other t in
          construct-none (choose_action input state) (v ∙ ap not blank),
    ),
  )

-- The text that the prepared input has for a value of the workspace.
abbrev seen : Option WorkspaceValue → Option String
seen none = none
seen (some v) = some (summary_text v v.summary)

summaries_get-workspace_summaries :
    (k : String) (ws : List (String × WorkspaceValue))
    → summaries_get k (workspace_summaries ws) ≡ seen (workspace_get k ws)
unfolding summaries_get workspace_summaries workspace_get
summaries_get-workspace_summaries k [] = refl
summaries_get-workspace_summaries k ((j, v) ∷ ws) =
    ground (arith, summaries_get-workspace_summaries k ws)

-- The values that the executor writes: a diagnosis has a summary; a candidate has a summary other
-- than FAILED, or has failed.
pub record IsTold (c : AgentContext) : Type 0 where
  pub diagnosis :
      (v : WorkspaceValue)
      → workspace_get "diagnosis" c.workspace ≡ some v
      → is_none v.summary ≡ false
  pub candidate :
      (v : WorkspaceValue)
      → workspace_get "candidate_sql" c.workspace ≡ some v
      → (v.summary ≡ none → v.status ≡ WorkspaceStatus.failed)
        × ((s : String) → v.summary ≡ some s → (s == "FAILED") ≡ false)

has_evidence-prepared :
    (c : AgentContext) (k : String)
    → has_evidence k (prepared (workspace_summaries c.workspace)) ≡ has_evidence k (full c)
unfolding has_evidence
has_evidence-prepared c k = ground (arith, summaries_get-workspace_summaries k c.workspace)

diagnosis_text-prepared :
    (c : AgentContext)
    → IsTold c
    → diagnosis_text (prepared (workspace_summaries c.workspace)) ≡ diagnosis_text (full c)
unfolding diagnosis_text
diagnosis_text-prepared c told = elim (Option-cases (workspace_get "diagnosis" c.workspace)) [
  | inl e ↦ ground (arith, e, summaries_get-workspace_summaries "diagnosis" c.workspace)
  | inr (v, e) ↦
      ground
        (arith, e, summaries_get-workspace_summaries "diagnosis" c.workspace, told.diagnosis v e)
]

candidate_text-prepared :
    (c : AgentContext)
    → IsTold c
    → candidate_text (prepared (workspace_summaries c.workspace)) ≡ candidate_text (full c)
unfolding candidate_text
candidate_text-prepared c told = elim (Option-cases (workspace_get "candidate_sql" c.workspace)) [
  | inl e ↦ ground (arith, e, summaries_get-workspace_summaries "candidate_sql" c.workspace)
  | inr (v, e) ↦
      let (failed, other) = told.candidate v e in
      elim (Option-cases v.summary) [
        | inl n ↦
            let missing : summary_text v v.summary ≡ "FAILED" =
              ap (summary_text v) n ∙ ap status_text (failed n) in
            rw (summaries_get-workspace_summaries "candidate_sql" c.workspace, e, missing, n) refl
        | inr (s, n) ↦
            ground (
              arith,
              e,
              n,
              other s n,
              summaries_get-workspace_summaries "candidate_sql" c.workspace,
            )
      ]
]

-- The prepared input leads to the same action, or exception, as the context that it was prepared
-- from.
pub next_action-prepared :
    (c : AgentContext) (state : AgentRunState)
    → IsTold c
    → next_action (prepared (workspace_summaries c.workspace)) state ≡ next_action (full c) state
unfolding next_action wants_sub_agent choose_action
next_action-prepared c state told = ground (
  arith,
  has_evidence-prepared c "log_digest",
  has_evidence-prepared c "diagnosis",
  has_evidence-prepared c "subagent_diagnosis",
  has_evidence-prepared c "metadata_snapshot",
  has_evidence-prepared c "memory_retrieval",
  has_evidence-prepared c "repair_plan",
  has_evidence-prepared c "candidate_sql",
  diagnosis_text-prepared c told,
  candidate_text-prepared c told,
)
