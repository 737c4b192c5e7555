-- ===== src/Repair/Validator/Keywords.antt =====
-- The red line on dangerous keywords, stated on texts.
use Prim.Native.String.{◌++◌ as str_append}
use sql_self_healing_agent.Prelude.{ℕ, String, Bool, List, [], ◌∷◌, ◌++◌}
use sql_self_healing_agent.Repair.Words.{TextRules, is_word}

-- Whether the character that stands last is a word character; `before` if there is none.
abbrev pub word_before : TextRules → Bool → List ℕ → Bool
word_before rules before [] = before
word_before rules before (x ∷ xs) = word_before rules (is_word rules x) xs
