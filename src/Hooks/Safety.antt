-- ===== src/Hooks/Safety.antt =====
-- SafetyHook of agent/hooks/safety_hook.py. Letters are compared as ASCII letters.
pub mod Policy
use sql_self_healing_agent.Prelude.{
  ℕ, String, ◌≡◌, refl, Bool, true, false, not, ◌&&◌, ◌||◌, Option, none, some, List, [], ◌∷◌, any,
  is_none, truthy, if◌then◌else◌,
}
use sql_self_healing_agent.Repair.Words.{
  Rest, miss, hit, codes, take_word, drop_spaces, skip_spaces, ascii_rules,
}
use sql_self_healing_agent.Hooks.Models.{
  OperationType, OperationContext, Caller, HookAction, HookDecision,
}
use sql_self_healing_agent.Hooks.Budget.{proceed_decision, block_decision}

-- A piece of the pattern: letters in any case, `\s*`, or `\s+`.
pub data Piece : Type 0 where
  letters : String → Piece
  some_spaces : Piece
  spaces : Piece

abbrev then_rest : Rest → (List ℕ → Rest) → Rest
then_rest miss f = miss
then_rest (hit xs) f = f xs

unfoldable pub match_piece : Piece → List ℕ → Rest
match_piece (letters w) xs = take_word ascii_rules (codes w) xs
match_piece some_spaces xs = hit (drop_spaces xs)
match_piece spaces xs = skip_spaces xs

unfoldable pub match_pieces : List Piece → List ℕ → Rest
unfolding match_piece
match_pieces [] xs = hit xs
match_pieces (p ∷ ps) xs = then_rest (match_piece p xs) (match_pieces ps)

abbrev pub is_hit : Rest → Bool
is_hit miss = false
is_hit (hit _) = true

-- The alternatives of `_forbidden`
abbrev pub forbidden : List (List Piece)
forbidden =
    (letters "AUTHORIZATION" ∷ some_spaces ∷ letters ":" ∷ [])
    ∷ (letters "ARK_API_KEY" ∷ [])
    ∷ (letters "EXECUTE" ∷ spaces ∷ letters "PRODUCTION" ∷ spaces ∷ letters "SQL" ∷ [])
    ∷ (letters "EXECUTE" ∷ spaces ∷ letters "SQL" ∷ [])
    ∷ (letters "BYPASS" ∷ spaces ∷ letters "GATE" ∷ [])
    ∷ (letters "WRITESESSION" ∷ [])
    ∷ (letters "WRITEATTEMPT" ∷ [])
    ∷ (letters "WRITEMEMORY" ∷ [])
    ∷ (letters "SUBMIT_WITHOUT_GATE" ∷ [])
    ∷ []

-- `_forbidden.search`
unfoldable pub search_forbidden : List ℕ → Bool
unfolding match_pieces
search_forbidden [] = false
search_forbidden (x ∷ xs) =
    any (λ ps. is_hit (match_pieces ps (x ∷ xs))) forbidden || search_forbidden xs

-- Whether `caller_policy` allows the caller
unfoldable pub caller_allowed : OperationType → Caller → Bool
caller_allowed OperationType.sub_agent_run caller = elim caller [
  | Caller.main_agent ↦ true
  | _ ↦ false
]
caller_allowed OperationType.gate_run caller = elim caller [ Caller.gate_runner ↦ true | _ ↦ false ]
caller_allowed OperationType.context_compaction caller = elim caller [
  | Caller.context_manager ↦ true
  | _ ↦ false
]
caller_allowed OperationType.llm_call caller = true
caller_allowed OperationType.tool_call caller = true

abbrev needs_attempt : OperationType → Bool
needs_attempt OperationType.context_compaction = false
needs_attempt _ = true

abbrev pub lacks_owner : OperationContext → Bool
lacks_owner o =
    not (truthy o.session_id) || (needs_attempt o.operation_type && is_none o.attempt_id)

abbrev pub is_forbidden : Option String → Bool
is_forbidden none = false
is_forbidden (some s) = truthy s && search_forbidden (codes s)

-- SafetyHook.before
unfoldable pub safety_before : OperationContext → HookDecision
safety_before o =
    if not (caller_allowed o.operation_type o.caller)
    then block_decision "OPERATION_CALLER_FORBIDDEN" (some "操作调用方不符合安全策略。")
    else if lacks_owner o
    then block_decision "OPERATION_OWNERSHIP_MISSING" (some "操作缺少 Session 或 Attempt 归属。")
    else if is_forbidden o.input_summary
    then block_decision "SAFETY_POLICY_BLOCKED" (some "操作包含凭据或越权意图。")
    else proceed_decision

bypass_found : is_forbidden (some "please Bypass  GATE now") ≡ true
unfolding search_forbidden take_word skip_spaces
bypass_found = refl
