-- ===== src/Agent/Tools/Permitted.antt =====
-- Which tools ToolRegistry of agent/tools/tool_registry.py runs.
use sql_self_healing_agent.Prelude.{
  String, ◌==◌, ◌≡◌, ◌≢◌, ◌⊎◌, inl, inr, refl, subst, Bool, true, false, not, ◌||◌, Option, none,
  some, List, [], ◌∷◌, ◌++◌, if◌then◌else◌, any, contains, All, All-append, Bool-cases, arith,
}
use sql_self_healing_agent.Agent.Models.{AgentContext}
use sql_self_healing_agent.Agent.Tools.{
  succeeded, ToolCallResult, Tool, allowed_names, forbidden_names, in_phase, failed_call, register,
  get, run_validated, execute_found, execute,
}

named_parts : (a b : Bool) → (not a || b) ≡ false → (a ≡ true) × (b ≡ false)
named_parts a b e = ground arith

module _ {W I : Type 0} where
  -- Every tool has a name that is allowed and not forbidden.
  abbrev pub HasAllowedName : Tool W I → Type 0
  HasAllowedName t =
      (contains t.name allowed_names ≡ true) × (contains t.name forbidden_names ≡ false)

  -- A registry, as registrations make it
  pub data IsRegistry : List (Tool W I) → Type 0 where
    nothing : IsRegistry []
    registered :
        (t : Tool W I) (ts : List (Tool W I)) {us : List (Tool W I)}
        → IsRegistry ts
        → register t ts ≡ some us
        → IsRegistry us

  register_lem :
      (t : Tool W I) (ts us : List (Tool W I))
      → register t ts ≡ some us
      → (if not (contains t.name allowed_names) || contains t.name forbidden_names
          then none
          else if any (λ u. u.name == t.name) ts
          then none
          else some (ts ++ t ∷ []))
        ≡ some us
  unfolding register
  register_lem t ts us e = e

  register-HasAllowedName :
      (t : Tool W I) (ts us : List (Tool W I))
      → register t ts ≡ some us
      → All HasAllowedName ts
      → All HasAllowedName us
  register-HasAllowedName t ts us e a =
      elim (Bool-cases (not (contains t.name allowed_names) || contains t.name forbidden_names)) [
        | inl refused ↦ cc (rw refused at (register_lem t ts us e))
        | inr named ↦ elim (Bool-cases (any (λ u. u.name == t.name) ts)) [
          | inl twice ↦ cc (rw (named, twice) at (register_lem t ts us e))
          | inr new ↦
              let grown : ts ++ t ∷ [] ≡ us = cc (rw (named, new) at (register_lem t ts us e)) in
              subst (All HasAllowedName) grown (
                All-append HasAllowedName ts (t ∷ []) a (
                  named_parts (contains t.name allowed_names) (contains t.name forbidden_names)
                      named,
                  tt,
                ))
        ]
      ]

  IsRegistry-HasAllowedName : {ts : List (Tool W I)} → IsRegistry ts → All HasAllowedName ts
  IsRegistry-HasAllowedName nothing = tt
  IsRegistry-HasAllowedName (registered t ts {us} r e) =
      register-HasAllowedName t ts us e (IsRegistry-HasAllowedName r)

  found_All :
      (P : Tool W I → Type 0) (name : String) (t : Tool W I) (ts : List (Tool W I))
      → get name ts ≡ some t
      → All P ts
      → P t
  unfolding get
  found_All P name t [] e a = cc
  found_All P name t (u ∷ us) e a = elim (Bool-cases (u.name == name)) [
    | inl same ↦ subst P (cc (rw same at e)) a.0
    | inr other ↦ found_All P name t us (rw other at e) a.1
  ]

module _ {W I : Type 0} (ts : List (Tool W I)) (name : String) (context : AgentContext) (input : I)
    (started finished : String) (w : W) where
  -- A tool of that name, with an allowed name and for the phase of the context, ran on the validated
  -- input.
  abbrev pub Ran : ToolCallResult × W → Type 0
  Ran p =
      (t : Tool W I) × (v : I) × (get name ts ≡ some t)
      × HasAllowedName t
      × (in_phase context.phase t.allowed_phases ≡ true)
      × (t.validate input ≡ some v)
      × (p.1 ≡ (t.run context v w).0)

  -- Nothing ran, and the result says so.
  abbrev pub Refused : ToolCallResult × W → Type 0
  Refused p = (p.1 ≡ w) × (p.0.status ≢ succeeded)

  validated :
      (t : Tool W I) (o : Option I)
      → get name ts ≡ some t
      → HasAllowedName t
      → in_phase context.phase t.allowed_phases ≡ true
      → t.validate input ≡ o
      → Ran (run_validated o t context name started finished w)
        ⊎ Refused (run_validated o t context name started finished w)
  unfolding run_validated failed_call
  validated t none found allowed phase e = inr (refl, λ p. cc)
  validated t (some v) found allowed phase e = inl (t, v, found, allowed, phase, e, refl)

  found_runs :
      (o : Option (Tool W I))
      → get name ts ≡ o
      → All HasAllowedName ts
      → Ran (execute_found o context input name started finished w)
        ⊎ Refused (execute_found o context input name started finished w)
  unfolding execute_found failed_call
  found_runs none e a = inr (refl, λ p. cc)
  found_runs (some t) e a = elim (Bool-cases (in_phase context.phase t.allowed_phases)) [
    | inl phase ↦
        rw phase
          (validated t (t.validate input) e (found_All HasAllowedName name t ts e a) phase refl)
    | inr other ↦ rw other (inr (refl, λ p. cc))
  ]

  -- `execute` of a registry that registrations made runs a tool only under an allowed name, in a
  -- phase of the tool and on an input that its model accepts; otherwise it changes nothing and does
  -- not report success.
  pub execute-IsPermitted :
      IsRegistry ts
      → Ran (execute ts name context input started finished w)
        ⊎ Refused (execute ts name context input started finished w)
  unfolding execute
  execute-IsPermitted r = found_runs (get name ts) refl (IsRegistry-HasAllowedName r)
