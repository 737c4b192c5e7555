-- ===== src/Session/Keys.antt =====
-- Names that are built from texts: session/event_key_builder.py, `_safe_task_id` of
-- session/session_store.py and `_safe_key` of session/session_lock.py. Texts are read as their codes.
-- SHA-256 and `str.isalnum` beyond ASCII are parameters.
use Prim.Native.Char.{code}
use Prim.Native.String.{◌++◌ as str_append}
use sql_self_healing_agent.Prelude.{
  ℕ, ◌+◌, ◌/◌, ◌%◌, String, ◌≡◌, refl, Bool, true, false, ◌&&◌, ◌||◌, Option, none, some, List, [],
  ◌∷◌, ◌++◌, leb, nat_eq, is_space, text_or, if◌then◌else◌,
}
use sql_self_healing_agent.Core.{EventStatus, failed, success, UpstreamTaskEvent}
use sql_self_healing_agent.Repair.Words.{codes, drop_spaces}
use sql_self_healing_agent.Repair.Normalize.{collapse, strip_end}

-- `_normalize_sql`
unfoldable pub normalize_sql : List ℕ → List ℕ
unfolding collapse strip_end drop_spaces is_space
normalize_sql s = strip_end is_space (drop_spaces (collapse false s))

-- `replace("\r\n", "\n").replace("\r", "\n")`; `returned` tells that a carriage return has just been
-- replaced.
unfoldable pub unix_lines : Bool → List ℕ → List ℕ
unix_lines returned [] = []
unix_lines returned (x ∷ xs) =
    let skipped = unix_lines false xs in
    let line = 10 ∷ unix_lines true xs in
    let kept = x ∷ unix_lines false xs in
    if nat_eq x 13 then line else if returned && nat_eq x 10 then skipped else kept

-- `_normalize_text`
unfoldable pub normalize_text : List ℕ → List ℕ
unfolding unix_lines strip_end drop_spaces is_space
normalize_text s = strip_end is_space (drop_spaces (unix_lines false s))

abbrev hex : ℕ → ℕ
hex d = if leb d 9 then 48 + d else 87 + d

-- A character in a JSON string, with `ensure_ascii=False`
abbrev json_char : ℕ → List ℕ
json_char c =
    if nat_eq c 34
    then 92 ∷ 34 ∷ []
    else if nat_eq c 92
    then 92 ∷ 92 ∷ []
    else if nat_eq c 8
    then 92 ∷ 98 ∷ []
    else if nat_eq c 9
    then 92 ∷ 116 ∷ []
    else if nat_eq c 10
    then 92 ∷ 110 ∷ []
    else if nat_eq c 12
    then 92 ∷ 102 ∷ []
    else if nat_eq c 13
    then 92 ∷ 114 ∷ []
    else if leb c 31
    then 92 ∷ 117 ∷ 48 ∷ 48 ∷ hex (c / 16) ∷ hex (c % 16) ∷ []
    else c ∷ []

unfoldable pub json_chars : List ℕ → List ℕ
json_chars [] = []
json_chars (c ∷ cs) = json_char c ++ json_chars cs

abbrev json_string : List ℕ → List ℕ
json_string s = 34 ∷ json_chars s ++ 34 ∷ []

abbrev json_optional : Option (List ℕ) → List ℕ
json_optional none = codes "null"
json_optional (some s) = json_string s

abbrev normalized : Option String → Option (List ℕ)
normalized none = none
normalized (some s) = some (normalize_text (codes s))

abbrev pub event_status_text : EventStatus → String
event_status_text failed = "FAILED"
event_status_text success = "SUCCESS"

-- `json.dumps(payload, sort_keys=True, separators=(",", ":"))`
unfoldable pub canonical_event : UpstreamTaskEvent → List ℕ
unfolding json_chars normalize_sql normalize_text
canonical_event e =
    codes "{\"error_message\":"
    ++ json_optional (normalized e.error_message)
    ++ codes ",\"id\":"
    ++ json_string (codes e.id)
    ++ codes ",\"log_path\":"
    ++ json_optional (normalized e.log_path)
    ++ codes ",\"sql\":"
    ++ json_string (normalize_sql (codes e.sql))
    ++ codes ",\"status\":"
    ++ json_string (codes (event_status_text e.status))
    ++ codes "}"

unfoldable pub build_event_key : (List ℕ → String) → UpstreamTaskEvent → String
unfolding canonical_event
build_event_key sha256 e = sha256 (canonical_event e)

abbrev ascii_alnum : ℕ → Bool
ascii_alnum c = leb 48 c && leb c 57 || leb 65 c && leb c 90 || leb 97 c && leb c 122

-- `.`, `_` and `-`
abbrev mark : ℕ → Bool
mark c = nat_eq c 46 || nat_eq c 95 || nat_eq c 45

-- The characters that `_safe_task_id` keeps are the ones of the pattern, and `safe` tells them.
module _ (safe : ℕ → Bool) where
  abbrev safe_characters : String → String
  safe_characters String.[] = ""
  safe_characters (String.◌∷◌ c s) =
      String.◌∷◌ (if safe (code c) then c else "_") (safe_characters s)

-- SessionStore._safe_task_id
unfoldable pub safe_task_id : String → String
safe_task_id id = text_or (some (safe_characters (λ c. ascii_alnum c || mark c) id)) "task"

-- SessionStore.session_id_for_task
unfoldable pub session_id_for_task : String → String
unfolding safe_task_id
session_id_for_task id = str_append "sess_" (safe_task_id id)

-- SessionLock._safe_key; `alnum` is `str.isalnum` of one character
unfoldable pub safe_key : (ℕ → Bool) → String → String
safe_key alnum id = text_or (some (safe_characters (λ c. alnum c || mark c) id)) "task"

-- Two tasks whose identifiers differ in a mark only have one session.
sessions_collide : session_id_for_task "team/job" ≡ session_id_for_task "team_job"
unfolding session_id_for_task
sessions_collide = refl
