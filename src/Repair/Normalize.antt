-- ===== src/Repair/Normalize.antt =====
-- Normal forms of SQL text in repair/sql_generator.py: `_normalized_text`, `_static_partition`, and
-- the list comparisons of `build_diff`. Texts are read as their codes.
use sql_self_healing_agent.Prelude.{
  ℕ, ◌+◌, String, Bool, true, false, ◌&&◌, Option, List, [], ◌∷◌, ◌==◌, is_empty, leb, nat_eq,
  is_space, same_text, if◌then◌else◌,
}
use sql_self_healing_agent.Repair.Words.{
  TextRules, Phrase, Rest, miss, hit, word, pair, codes, take_word, drop_spaces, is_word,
  search_from,
}

-- `re.sub(r"\s+", " ", sql)` on codes; `spaced` tells that the last character was a space.
unfoldable pub collapse : Bool → List ℕ → List ℕ
unfolding is_space
collapse spaced [] = []
collapse spaced (x ∷ xs) =
    let rest = collapse (is_space x) xs in
    if is_space x then (if spaced then rest else 32 ∷ rest) else x ∷ rest

-- `rstrip` of the characters that pass a test
unfoldable pub strip_end : (ℕ → Bool) → List ℕ → List ℕ
strip_end p [] = []
strip_end p (x ∷ xs) = let rest = strip_end p xs in if is_empty rest && p x then [] else x ∷ rest

abbrev pub lower : ℕ → ℕ
lower c = if leb 65 c && leb c 90 then c + 32 else c

-- `_normalized_text`
unfoldable pub normalized_codes : TextRules → List ℕ → List ℕ
unfolding collapse strip_end drop_spaces is_space
normalized_codes rules s =
    rules.lower (strip_end (λ c. nat_eq c 59) (strip_end is_space (drop_spaces (collapse false s))))

abbrev pub same_codes : List ℕ → List ℕ → Bool
same_codes [] [] = true
same_codes (x ∷ xs) (y ∷ ys) = nat_eq x y && same_codes xs ys
same_codes _ _ = false

abbrev pub until_close : List ℕ → Rest
until_close [] = miss
until_close (x ∷ xs) =
    let rest = until_close xs in
    if nat_eq x 41 then hit [] else elim rest [ miss ↦ miss | hit g ↦ hit (x ∷ g) ]

abbrev pub group_after : List ℕ → Rest
group_after [] = miss
group_after (x ∷ xs) = if nat_eq x 40 then until_close xs else miss

-- The first match of `\bpartition\s*\(([^)]*)\)` without case, and its group.
unfoldable pub partition_group : TextRules → Bool → List ℕ → Rest
unfolding take_word drop_spaces is_word
partition_group rules before [] = miss
partition_group rules before (x ∷ xs) =
    let found = if before then miss else elim (take_word rules (codes "PARTITION") (x ∷ xs)) [
      | miss ↦ miss
      | hit r ↦ group_after (drop_spaces r)
    ] in
    let later = partition_group rules (is_word rules x) xs in
    elim found [ miss ↦ later | hit g ↦ hit g ]

abbrev pub normalized_rest : TextRules → Rest → Rest
normalized_rest rules miss = miss
normalized_rest rules (hit g) = hit (normalized_codes rules g)

abbrev pub same_rest : Rest → Rest → Bool
same_rest miss miss = true
same_rest (hit a) (hit b) = same_codes a b
same_rest _ _ = false

-- `_static_partition`
unfoldable pub static_partition : TextRules → String → Rest
unfolding partition_group normalized_codes
static_partition rules sql = normalized_rest rules (partition_group rules false (codes sql))

abbrev pub same_texts : List String → List String → Bool
same_texts [] [] = true
same_texts (x ∷ xs) (y ∷ ys) = x == y && same_texts xs ys
same_texts _ _ = false

abbrev pub same_conditions : List (Option String) → List (Option String) → Bool
same_conditions [] [] = true
same_conditions (x ∷ xs) (y ∷ ys) = same_text x y && same_conditions xs ys
same_conditions _ _ = false

abbrev pub mentions : TextRules → List Phrase → String → Bool
mentions rules ps sql = search_from rules ps false (normalized_codes rules (codes sql))

abbrev pub where_pattern : List Phrase
where_pattern = word (codes "WHERE") ∷ []

abbrev pub join_pattern : List Phrase
join_pattern = word (codes "JOIN") ∷ []

abbrev pub group_pattern : List Phrase
group_pattern = pair (codes "GROUP") (codes "BY") ∷ []
