-- ===== src/Hooks/Manager/Outcomes.antt =====
-- How HookManager.execute_operation (agent/hooks/hook_manager.py) ends.
use sql_self_healing_agent.Prelude.{
  String, ◌≡◌, refl, sym, ap, ◌∙◌, true, false, some, List, [], ◌∷◌, ◌++◌, Bool-cases, inl, inr,
}
use sql_self_healing_agent.Hooks.Models.{
  OperationContext, OperationStatus, HookAction, HookDecision,
}
use sql_self_healing_agent.Hooks.Manager.{
  Exception, Answer, ok, raises, Hook, Started, Operated, status_of, code_of, decide, run_before,
  conclude, after_start, execute_operation,
}

module _ {W : Type 0} (o : OperationContext) where
  -- The hooks of a list let the operation pass: each one that applies answers CONTINUE. The lists
  -- are those of the hooks executed before and after.
  pub data Passes : List (Hook W) → List (Hook W) → W → List (Hook W) → W → Type 0 where
    nothing_left : {ex : List (Hook W)} {w : W} → Passes [] ex w ex w
    skips :
        {h : Hook W} {hs ex ex' : List (Hook W)} {w w' : W}
        → h.applies_to o ≡ false
        → Passes hs ex w ex' w'
        → Passes (h ∷ hs) ex w ex' w'
    lets_pass :
        {h : Hook W} {hs ex ex' : List (Hook W)} {w v w' : W} {d : HookDecision}
        → h.applies_to o ≡ true
        → h.before o w ≡ (v, ok d)
        → d.action ≡ HookAction.proceed
        → Passes hs (h ∷ ex) v ex' w'
        → Passes (h ∷ hs) ex w ex' w'

  decide-Passes :
      (rest : List (Hook W) → W → Started W) (h : Hook W) (hs ex : List (Hook W)) (w : W)
      (p : W × Answer HookDecision)
      → h.applies_to o ≡ true
      → h.before o w ≡ p
      → (decide rest h ex p).phase ≡ ok tt
      → ((ex' : List (Hook W)) (v : W)
          → (rest ex' v).phase ≡ ok tt
          → Passes hs ex' v (rest ex' v).executed (rest ex' v).state)
      → Passes (h ∷ hs) ex w (decide rest h ex p).executed (decide rest h ex p).state
  unfolding decide
  decide-Passes rest h hs ex w (v, raises e) on q f go = cc f
  decide-Passes rest h hs ex w (v, ok d) on q f go = by_action d.action refl
    where
      by_action :
          (a : HookAction)
          → d.action ≡ a
          → Passes
              (h ∷ hs)
              ex
              w
              (decide rest h ex (v, ok d)).executed
              (decide rest h ex (v, ok d)).state
      by_action HookAction.block e = cc (rw e at f)
      by_action HookAction.proceed e = rw e (lets_pass on q e (go (h ∷ ex) v (rw e at f)))

  run_before-Passes :
      (hs ex : List (Hook W)) (w : W)
      → (run_before o hs ex w).phase ≡ ok tt
      → Passes hs ex w (run_before o hs ex w).executed (run_before o hs ex w).state
  unfolding run_before
  run_before-Passes [] ex w e = nothing_left
  run_before-Passes (h ∷ hs) ex w e = elim (Bool-cases (h.applies_to o)) [
    | inr off ↦ rw off (skips off (run_before-Passes hs ex w (rw off at e)))
    | inl on ↦ rw on (
        decide-Passes (run_before o hs) h hs ex w (h.before o w) on refl (rw on at e)
          (λ ex' v f. run_before-Passes hs ex' v f))
  ]

  -- Hooks that let the operation pass leave the rest of the hooks to run.
  pub Passes-run_before :
      (front back ex ex' : List (Hook W)) (w w' : W)
      → Passes front ex w ex' w'
      → run_before o (front ++ back) ex w ≡ run_before o back ex' w'
  unfolding run_before decide
  Passes-run_before front back ex ex' w w' nothing_left = refl
  Passes-run_before front back ex ex' w w' (skips {h} {hs} off rest) =
      rw off (Passes-run_before hs back ex ex' w w' rest)
  Passes-run_before front back ex ex' w w' (lets_pass {h} {hs} {v = v} on q e rest) =
      rw (on, q, e) (Passes-run_before hs back (h ∷ ex) ex' v w' rest)

pair_eta : {A B : Type 0} (p : A × B) (b : B) → p.1 ≡ b → p ≡ (p.0, b)
pair_eta (a, b') b e = rw e refl

module _ {W T : Type 0} (summary : T → String) (now : String) (o : OperationContext)
    (call : W → W × Answer T) where
  conclude-answer :
      (ex : List (Hook W)) (p : W × Answer T) → (conclude summary now o ex p).answer ≡ p.1
  unfolding conclude
  conclude-answer ex (w, ok t) = refl
  conclude-answer ex (w, raises e) = refl

  after_start-ok :
      (x : Answer (Unit {0})) (ex : List (Hook W)) (w : W) (t : T)
      → (after_start summary now o call x ex w).answer ≡ ok t
      → (x ≡ ok tt) × ((call w).1 ≡ ok t)
  unfolding after_start
  after_start-ok (ok u) ex w t e = (refl, sym (conclude-answer ex (call w)) ∙ e)
  after_start-ok (raises x) ex w t e = cc (conclude-answer ex (w, raises x), e)

  abbrev IsTold : Operated W T → Type 0
  IsTold r =
      (r.operation.finished_at ≡ some now)
      × ((t : T)
          → r.answer ≡ ok t
          → (r.operation.status ≡ OperationStatus.succeeded)
            × (r.operation.output_summary ≡ some (summary t)))
      × ((e : Exception)
          → r.answer ≡ raises e
          → (r.operation.status ≡ status_of e) × (r.operation.error_code ≡ some (code_of e)))

  conclude-IsTold : (ex : List (Hook W)) (p : W × Answer T) → IsTold (conclude summary now o ex p)
  unfolding conclude
  conclude-IsTold ex (w, ok t) =
      (refl, λ u e. (refl, ap (λ x. some (summary x)) (cc e)), λ x e. cc e)
  conclude-IsTold ex (w, raises x) = (
    refl,
    λ u e. cc e,
    λ y e. (let same : x ≡ y = cc e in (ap status_of same, ap (λ z. some (code_of z)) same)),
  )

  after_start-IsTold :
      (x : Answer (Unit {0})) (ex : List (Hook W)) (w : W)
      → IsTold (after_start summary now o call x ex w)
  unfolding after_start
  after_start-IsTold (ok u) ex w = conclude-IsTold ex (call w)
  after_start-IsTold (raises x) ex w = conclude-IsTold ex (w, raises x)

module _ {W T : Type 0} (summary : T → String) (now : String) (hooks : List (Hook W))
    (operation : OperationContext) (call : W → W × Answer T) (w : W) where
  abbrev running : OperationContext
  running = record operation { status = OperationStatus.running }

  abbrev outcome : Operated W T
  outcome = execute_operation summary now hooks operation call w

  -- The value that an operation returns is one that the call returned, after every hook that
  -- applies, in order, had let the operation pass.
  pub execute_operation-value :
      (t : T)
      → outcome.answer ≡ ok t
      → (executed : List (Hook W)) × (before : W) × (v : W) × Passes running hooks [] w executed
          before
        × (call before ≡ (v, ok t))
  unfolding execute_operation
  execute_operation-value t e =
      let started = run_before running hooks [] w in
      let (passed, called) =
        after_start-ok summary now running call started.phase started.executed started.state t e in
      (
        started.executed,
        started.state,
        (call started.state).0,
        run_before-Passes running hooks [] w passed,
        pair_eta (call started.state) (ok t) called,
      )

  -- However an operation ends, it is finished, and its status and its error code tell how.
  pub execute_operation-status :
      (outcome.operation.finished_at ≡ some now)
      × ((t : T)
          → outcome.answer ≡ ok t
          → (outcome.operation.status ≡ OperationStatus.succeeded)
            × (outcome.operation.output_summary ≡ some (summary t)))
      × ((e : Exception)
          → outcome.answer ≡ raises e
          → (outcome.operation.status ≡ status_of e)
            × (outcome.operation.error_code ≡ some (code_of e)))
  unfolding execute_operation
  execute_operation-status =
      let started = run_before running hooks [] w in
      after_start-IsTold summary now running call started.phase started.executed started.state
