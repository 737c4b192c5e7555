-- ===== src/Hooks/Retry/Bounds.antt =====
-- LLMRetryHook.run (llm/retry_hook.py) ends, and calls the operation a bounded number of times.
use sql_self_healing_agent.Prelude.{
  ℕ, zero, suc, ◌+◌, ◌≤◌, String, ◌≡◌, refl, ◌&&◌, Option, none, some, arith, ltb, Bool-cases, ◌⊎◌,
  inl, inr,
}
use sql_self_healing_agent.Hooks.Retry.{
  Called, value, client_error, other_error, Retried, completed, gave_up, escaped, exhausted,
  RetryLimits, schema_feedback_text, is_schema, is_transient, settle, retry_loop, run,
}

-- The state that a run ends with; none if the fuel was used up.
abbrev pub final_state : {W T : Type 0} → Retried W T → Option W
final_state (completed w t) = some w
final_state (gave_up w e) = some w
final_state (escaped w) = some w
final_state exhausted = none

abbrev pub called_state : {W T : Type 0} → Called W T → W
called_state (value w t) = w
called_state (client_error w e) = w
called_state (other_error w) = w

module _ {W T : Type 0} (limits : RetryLimits) (operation : Option String → W → Called W T)
    (calls : W → ℕ)
    (counts : (f : Option String) (w : W)
      → calls (called_state (operation f w)) ≡ calls w + 1) where
  -- The run has ended after at most `n` more calls than were counted in `w`.
  abbrev Within : ℕ → W → Retried W T → Type 0
  Within n w r =
      (w' : W) × (final_state r ≡ some w') × (calls w + 1 ≤ calls w') × (calls w' ≤ calls w + n)

  settle-Within :
      (fuel transient schema : ℕ) (f : Option String) (w : W) (x : Called W T)
      → calls (called_state x) ≡ calls w + 1
      → transient ≤ limits.max_transient_retries
      → schema ≤ limits.max_schema_retries
      → transient + schema + suc fuel
        ≡ suc (limits.max_schema_retries + limits.max_transient_retries)
      → ((t s : ℕ) (g : Option String) (v : W)
          → t ≤ limits.max_transient_retries
          → s ≤ limits.max_schema_retries
          → t + s + fuel ≡ suc (limits.max_schema_retries + limits.max_transient_retries)
          → Within fuel v (retry_loop limits operation fuel t s g v))
      → Within
          (suc fuel)
          w
          (settle limits operation (retry_loop limits operation fuel) transient schema f x)
  unfolding settle
  settle-Within fuel transient schema f w (value w' t) one tb sb e rest =
      (w', refl, omega (arith, one), omega (arith, one))
  settle-Within fuel transient schema f w (other_error w') one tb sb e rest =
      (w', refl, omega (arith, one), omega (arith, one))
  settle-Within fuel transient schema f w (client_error w' x) one tb sb e rest =
      elim (Bool-cases (is_schema x && ltb schema limits.max_schema_retries)) [
        | inl retry ↦ rw retry (
            longer _ (
              rest transient (schema + 1) (some schema_feedback_text) w' tb (ground (arith, retry))
                (omega (arith, e))))
        | inr off ↦
            elim (Bool-cases (is_transient x && ltb transient limits.max_transient_retries)) [
              | inl retry ↦
                  rw (off, retry)
                    (longer _ (
                      rest (transient + 1) schema f w' (ground (arith, retry)) sb
                        (omega (arith, e))))
              | inr none_left ↦
                  rw (off, none_left) (w', refl, omega (arith, one), omega (arith, one))
            ]
      ]
    where
      longer : (r : Retried W T) → Within fuel w' r → Within (suc fuel) w r
      longer r (v, ended, more, bound) =
          (v, ended, omega (arith, one, more), omega (arith, one, bound))

  retry_loop-Within :
      (fuel transient schema : ℕ) (f : Option String) (w : W)
      → transient ≤ limits.max_transient_retries
      → schema ≤ limits.max_schema_retries
      → transient + schema + fuel ≡ suc (limits.max_schema_retries + limits.max_transient_retries)
      → Within fuel w (retry_loop limits operation fuel transient schema f w)
  unfolding retry_loop
  retry_loop-Within zero transient schema f w tb sb e = absurd (omega (arith, tb, sb, e))
  retry_loop-Within (suc fuel) transient schema f w tb sb e =
      settle-Within fuel transient schema f w (operation f w) (counts f w) tb sb e
        (λ t s g v tb' sb' e'. retry_loop-Within fuel t s g v tb' sb' e')

  -- A run ends, and if every call of the operation is counted once, it has made at least one call
  -- and at most one more than there are retries of both kinds.
  pub run-call_bound :
      (w : W)
      → (w' : W) × (final_state (run limits operation w) ≡ some w')
        × (calls w + 1 ≤ calls w')
        × (calls w' ≤ calls w + suc (limits.max_schema_retries + limits.max_transient_retries))
  unfolding run
  run-call_bound w =
      retry_loop-Within (suc (limits.max_schema_retries + limits.max_transient_retries)) 0 0 none w
        (omega arith) (omega arith) (omega arith)

-- What the last call of a run answered, and with which feedback it was made.
pub record LastCall {W T : Type 0} (operation : Option String → W → Called W T) (x : Called W T)
    : Type 0 where
  pub feedback : Option String
  pub before : W
  pub answered : operation feedback before ≡ x
  pub known : (feedback ≡ none) ⊎ (feedback ≡ some schema_feedback_text)

-- The call that a result of a run comes from.
abbrev pub IsLast : {W T : Type 0} → (Option String → W → Called W T) → Retried W T → Type 0
IsLast operation (completed w t) = LastCall operation (value w t)
IsLast operation (gave_up w e) = LastCall operation (client_error w e)
IsLast operation (escaped w) = LastCall operation (other_error w)
IsLast operation exhausted = Unit

module _ {W T : Type 0} (limits : RetryLimits) (operation : Option String → W → Called W T) where
  settle-IsLast :
      (fuel transient schema : ℕ) (f : Option String) (w : W) (x : Called W T)
      → operation f w ≡ x
      → (f ≡ none) ⊎ (f ≡ some schema_feedback_text)
      → ((t s : ℕ) (g : Option String) (v : W)
          → (g ≡ none) ⊎ (g ≡ some schema_feedback_text)
          → IsLast operation (retry_loop limits operation fuel t s g v))
      → IsLast operation
          (settle limits operation (retry_loop limits operation fuel) transient schema f x)
  unfolding settle
  settle-IsLast fuel transient schema f w (value w' t) e k rest = record {
    feedback = f;
    before = w;
    answered = e;
    known = k;
  }
  settle-IsLast fuel transient schema f w (other_error w') e k rest = record {
    feedback = f;
    before = w;
    answered = e;
    known = k;
  }
  settle-IsLast fuel transient schema f w (client_error w' x) e k rest =
      elim (Bool-cases (is_schema x && ltb schema limits.max_schema_retries)) [
        | inl retry ↦
            rw retry (rest transient (schema + 1) (some schema_feedback_text) w' (inr refl))
        | inr off ↦
            elim (Bool-cases (is_transient x && ltb transient limits.max_transient_retries)) [
              | inl retry ↦ rw (off, retry) (rest (transient + 1) schema f w' k)
              | inr none_left ↦
                  rw (off, none_left) (record { feedback = f; before = w; answered = e; known = k })
            ]
      ]

  retry_loop-IsLast :
      (fuel transient schema : ℕ) (f : Option String) (w : W)
      → (f ≡ none) ⊎ (f ≡ some schema_feedback_text)
      → IsLast operation (retry_loop limits operation fuel transient schema f w)
  unfolding retry_loop
  retry_loop-IsLast zero transient schema f w k = tt
  retry_loop-IsLast (suc fuel) transient schema f w k =
      settle-IsLast fuel transient schema f w (operation f w) refl k
        (λ t s g v k'. retry_loop-IsLast fuel t s g v k')

  -- A value, an error or an exception that a run ends with is what a call of the operation answered,
  -- made without feedback or with the fixed text on the schema.
  pub run-IsLast : (w : W) → IsLast operation (run limits operation w)
  unfolding run
  run-IsLast w =
      retry_loop-IsLast (suc (limits.max_schema_retries + limits.max_transient_retries)) 0 0 none w
        (inl refl)
