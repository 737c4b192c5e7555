-- ===== src/Repair/Apply.antt =====
-- Applying a repair plan to the failed SQL: `_replace_action` and `apply_repair_plan` of
-- repair/sql_generator.py. The module re is a parameter, TextRules of Repair/Words.
use Prim.Native.Char.{Char, code}
use sql_self_healing_agent.Prelude.{
  ℕ, zero, suc, ◌-◌, String, ◌≡◌, refl, Bool, true, false, not, ◌&&◌, ◌||◌, Option, none, some,
  List, [], ◌∷◌, ◌++◌, length, leb, nat_eq, truthy, text_or, if◌then◌else◌,
}
use sql_self_healing_agent.Repair.Models.{
  RepairActionType, ActionRisk, RepairAction, RepairPlan, ChangedFragment,
}
use sql_self_healing_agent.Repair.Words.{TextRules, upper, ascii_rules}

abbrev pub chars : String → List Char
chars String.[] = []
chars (String.◌∷◌ c s) = c ∷ chars s

abbrev pub text : List Char → String
text [] = String.[]
text (c ∷ cs) = String.◌∷◌ c (text cs)

-- `[A-Za-z0-9_]`, under re.IGNORECASE
unfoldable pub is_identifier : TextRules → Char → Bool
unfolding upper
is_identifier rules c =
    let u = upper rules (code c) in leb 48 u && leb u 57 || leb 65 u && leb u 90 || nat_eq u 95

-- How a search compares characters, and whether it asks for identifier boundaries.
pub data Mode : Type 0 where
  identifier plain : Mode

unfoldable pub same_char : TextRules → Mode → Char → Char → Bool
unfolding upper
same_char rules identifier a b = nat_eq (upper rules (code a)) (upper rules (code b))
same_char rules plain a b = nat_eq (code a) (code b)

-- `(?![A-Za-z0-9_])` in identifier mode
unfoldable pub may_end : TextRules → Mode → List Char → Bool
unfolding is_identifier
may_end rules plain xs = true
may_end rules identifier [] = true
may_end rules identifier (x ∷ xs) = not (is_identifier rules x)

-- Whether the target, and then its right boundary, stand at the start of the text.
unfoldable pub stands_here : TextRules → Mode → List Char → List Char → Bool
unfolding same_char may_end
stands_here rules m [] xs = may_end rules m xs
stands_here rules m (t ∷ ts) [] = false
stands_here rules m (t ∷ ts) (x ∷ xs) = same_char rules m x t && stands_here rules m ts xs

-- `(?<![A-Za-z0-9_])` in identifier mode
unfoldable pub blocks_start : TextRules → Mode → Char → Bool
unfolding is_identifier
blocks_start rules plain x = false
blocks_start rules identifier x = is_identifier rules x

abbrev first_chars : ℕ → List Char → List Char
first_chars zero xs = []
first_chars (suc n) [] = []
first_chars (suc n) (x ∷ xs) = x ∷ first_chars n xs

-- The scan of `re.subn` and of `str.replace`, from the left and without overlaps. `new` gives what
-- is inserted for a match. `skip` characters of the last match are still to be passed; `blocked` tells
-- that the character in front forbids a match here. The result is the new text and the number of
-- matches.
unfoldable pub substitute :
    TextRules → Mode → List Char → (List Char → List Char) → ℕ → Bool → List Char → List Char × ℕ
unfolding stands_here blocks_start
substitute rules m target new skip blocked [] = ([], 0)
substitute rules m target new zero blocked (x ∷ xs) =
    elim (not blocked && stands_here rules m target (x ∷ xs)) [
      | true ↦
          let (out, n) =
            substitute rules m target new (length target - 1) (blocks_start rules m x) xs in
          (new (first_chars (length target) (x ∷ xs)) ++ out, suc n)
      | false ↦
          let (out, n) = substitute rules m target new 0 (blocks_start rules m x) xs in (x ∷ out, n)
    ]
substitute rules m target new (suc skip) blocked (x ∷ xs) =
    substitute rules m target new skip (blocks_start rules m x) xs

-- _IDENTIFIER_ACTIONS
unfoldable pub action_mode : RepairActionType → Mode
action_mode RepairActionType.replace_column = identifier
action_mode RepairActionType.replace_table = identifier
action_mode RepairActionType.qualify_column = identifier
action_mode _ = plain

-- What is inserted for a match: an expanded template, or the replacement itself
abbrev insertion : TextRules → Mode → String → List Char → List Char
insertion rules identifier new matched = chars (rules.expand new (text matched))
insertion rules plain new matched = chars new

-- Whether `re.subn` refuses the replacement
abbrev refuses : TextRules → Mode → String → Bool
refuses rules identifier new = not (rules.is_template new)
refuses rules plain new = false

-- A replacement that `re.subn` refuses, with re.error, counts as one that does not occur.
replace_fragments :
    TextRules → RepairActionType → Option String → Option String → String → String × ℕ
unfolding substitute action_mode
replace_fragments rules t (some target) (some new) sql =
    if truthy target && not (refuses rules (action_mode t) new)
    then (let (out, n) =
          substitute rules (action_mode t) (chars target) (insertion rules (action_mode t) new) 0
            false (chars sql) in
        (text out, n))
    else (sql, 0)
replace_fragments rules t _ _ sql = (sql, 0)

unfoldable pub replace_action : TextRules → String → RepairAction → String × ℕ
unfolding replace_fragments
replace_action rules sql action =
    replace_fragments rules action.action_type action.target_fragment action.replacement_fragment
      sql

unfoldable pub is_no_safe_repair : RepairActionType → Bool
is_no_safe_repair RepairActionType.no_safe_repair = true
is_no_safe_repair _ = false

abbrev pub changed_fragment : RepairAction → ChangedFragment
changed_fragment action = record {
  before = text_or action.target_fragment "";
  after = text_or action.replacement_fragment "";
  action_type = action.action_type;
  reason = action.reason;
}

-- The loop of `apply_repair_plan`; `none` is `(None, [])`.
unfoldable pub apply_actions :
    TextRules → String → List RepairAction → Option (String × List ChangedFragment)
unfolding replace_action is_no_safe_repair
apply_actions rules candidate [] = some (candidate, [])
apply_actions rules candidate (action ∷ actions) =
    let (next, count) = replace_action rules candidate action in
    let rest = apply_actions rules next actions in
    if is_no_safe_repair action.action_type
    then none
    else if nat_eq count 1
    then elim rest [ none ↦ none | some (c, changes) ↦ some (c, changed_fragment action ∷ changes) ]
    else none

unfoldable pub apply_repair_plan :
    TextRules → String → RepairPlan → Option (String × List ChangedFragment)
unfolding apply_actions
apply_repair_plan rules failed_sql plan = apply_actions rules failed_sql plan.actions

abbrev rename_id : RepairAction
rename_id = record {
  action_type = RepairActionType.replace_column;
  target_fragment = some "user_id";
  replacement_fragment = some "uid";
  reason = "rename";
  evidence = none;
  risk_level = ActionRisk.low;
}

renames_whole_identifiers :
    replace_action ascii_rules "select USER_ID, user_id2 from t" rename_id
    ≡ ("select uid, user_id2 from t", 1)
unfolding replace_action
renames_whole_identifiers = refl
