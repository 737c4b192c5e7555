-- ===== src/Repair/Words.antt =====
-- The keyword patterns of repair/validator.py, as searches over the words of a text. A word is a
-- maximal run of `\w` characters, which is what `\b` on both sides of a keyword asks for.
use Prim.Native.Char.{code}
use sql_self_healing_agent.Prelude.{
  ℕ, ◌+◌, ◌-◌, String, map, ◌≡◌, refl, Bool, true, false, not, ◌&&◌, ◌||◌, List, [], ◌∷◌, ◌++◌, leb,
  nat_eq, is_space, if◌then◌else◌,
}

abbrev pub codes : String → List ℕ
codes String.[] = []
codes (String.◌∷◌ c s) = code c ∷ codes s

-- What Python's `re` and `str` know of the characters from 128 on: whether a character is `\w`, the
-- one character that stands for all those that re.IGNORECASE takes for equal to it (an ASCII capital
-- where there is one), and `str.lower` of a text; and how `re.subn` reads a replacement for a pattern
-- without groups, as a template: whether it accepts it (it raises re.error if not), and the text that
-- it inserts for a match.
pub record TextRules : Type 0 where
  pub word_char : ℕ → Bool
  pub capital : ℕ → ℕ
  pub lower : List ℕ → List ℕ
  pub is_template : String → Bool
  pub expand : String → String → String

unfoldable pub is_word : TextRules → ℕ → Bool
is_word rules c =
    leb 48 c && leb c 57
    || leb 65 c && leb c 90
    || leb 97 c && leb c 122
    || nat_eq c 95
    || leb 128 c && rules.word_char c

unfoldable pub upper : TextRules → ℕ → ℕ
upper rules c = if leb 97 c && leb c 122 then c - 32 else if leb 128 c then rules.capital c else c

-- A keyword read at the start of a text: what follows it, if the text begins with it.
pub data Rest : Type 0 where
  miss : Rest
  hit : List ℕ → Rest

unfoldable pub take_word : TextRules → List ℕ → List ℕ → Rest
unfolding upper
take_word rules [] xs = hit xs
take_word rules (k ∷ ks) [] = miss
take_word rules (k ∷ ks) (x ∷ xs) =
    let rest = take_word rules ks xs in if nat_eq (upper rules x) k then rest else miss

-- `\b` behind a keyword
unfoldable pub ends_word : TextRules → List ℕ → Bool
unfolding is_word
ends_word rules [] = true
ends_word rules (x ∷ xs) = not (is_word rules x)

unfoldable pub drop_spaces : List ℕ → List ℕ
unfolding is_space
drop_spaces [] = []
drop_spaces (x ∷ xs) = let rest = drop_spaces xs in if is_space x then rest else x ∷ xs

-- `\s+`
unfoldable pub skip_spaces : List ℕ → Rest
unfolding is_space drop_spaces
skip_spaces [] = miss
skip_spaces (x ∷ xs) = if is_space x then hit (drop_spaces xs) else miss

-- A phrase is one keyword, or two with `\s+` between them.
pub data Phrase : Type 0 where
  word : List ℕ → Phrase
  pair : List ℕ → List ℕ → Phrase

abbrev after : Rest → (List ℕ → Bool) → Bool
after miss f = false
after (hit xs) f = f xs

unfoldable pub phrase_here : TextRules → Phrase → List ℕ → Bool
unfolding take_word ends_word skip_spaces
phrase_here rules (word w) xs = after (take_word rules w xs) (ends_word rules)
phrase_here rules (pair v w) xs =
    after (take_word rules v xs)
      (λ r. after (skip_spaces r) (λ s. after (take_word rules w s) (ends_word rules)))

unfoldable pub any_here : TextRules → List Phrase → List ℕ → Bool
unfolding phrase_here
any_here rules [] xs = false
any_here rules (p ∷ ps) xs = phrase_here rules p xs || any_here rules ps xs

-- `pattern.search`: `before` tells whether the character in front is a word character.
unfoldable pub search_from : TextRules → List Phrase → Bool → List ℕ → Bool
unfolding any_here is_word
search_from rules ps before [] = false
search_from rules ps before (x ∷ xs) =
    not before && any_here rules ps (x ∷ xs) || search_from rules ps (is_word rules x) xs

unfoldable pub search_in : TextRules → List Phrase → String → Bool
unfolding search_from
search_in rules ps s = search_from rules ps false (codes s)

-- _DANGEROUS_PATTERN
abbrev pub dangerous_pattern : List Phrase
dangerous_pattern =
    word (codes "DROP")
    ∷ word (codes "DELETE")
    ∷ word (codes "TRUNCATE")
    ∷ word (codes "ALTER")
    ∷ []

-- _INSERT_PATTERN
abbrev pub insert_pattern : List Phrase
insert_pattern =
    pair (codes "INSERT") (codes "INTO") ∷ pair (codes "INSERT") (codes "OVERWRITE") ∷ []

-- _WRITE_PATTERN
abbrev pub write_pattern : List Phrase
write_pattern =
    insert_pattern
    ++ word (codes "UPDATE")
      ∷ word (codes "MERGE")
      ∷ word (codes "CREATE")
      ∷ word (codes "REPLACE")
      ∷ []

-- Rules under which no character from 128 on is a letter, and a replacement stands for itself
abbrev pub ascii_rules : TextRules
ascii_rules = record {
  word_char = λ c. false;
  capital = λ c. c;
  lower = map (λ c. if leb 65 c && leb c 90 then c + 32 else c);
  is_template = λ template. true;
  expand = λ template matched. template;
}

finds_drop : search_in ascii_rules dangerous_pattern "select 1; dRop table t" ≡ true
unfolding search_in
finds_drop = refl

skips_droplet : search_in ascii_rules dangerous_pattern "select droplet, a_drop from t" ≡ false
unfolding search_in
skips_droplet = refl

finds_insert : search_in ascii_rules insert_pattern "INSERT   overwrite t select 1" ≡ true
unfolding search_in
finds_insert = refl
