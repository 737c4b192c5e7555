-- ===== src/Repair/Diff.antt =====
-- `candidate_matches_plan` and `build_diff` of repair/sql_generator.py. The SQL parser is the
-- package sqlglot: its trees and the accessors that the code calls are the parameter `SqlEngine`.
use mathlib.Core.Bool.{xor}
use sql_self_healing_agent.Prelude.{
  String, Bool, true, false, not, ◌&&◌, Option, none, some, List, [], ◌∷◌, ◌==◌, all, contains,
  length, is_none, same_text, text_or, map, if◌then◌else◌,
}
use sql_self_healing_agent.Repair.Models.{
  RepairPlan, ChangedFragment, SqlGenerationResult, SqlDiffSummary,
}
use sql_self_healing_agent.Repair.Words.{TextRules, codes}
use sql_self_healing_agent.Repair.Normalize.{
  normalized_codes, static_partition, same_codes, same_rest, same_texts, same_conditions, mentions,
  where_pattern, join_pattern, group_pattern,
}
use sql_self_healing_agent.Repair.Apply.{apply_repair_plan}

pub record SqlEngine (Tree : Type 0) : Type 0 where
  -- what Python's `re` and `str` know of characters
  pub rules : TextRules
  -- `sqlglot.parse_one(sql, read="hive")`; `none` is a SqlglotError or ValueError
  pub parse_one : String → Option Tree
  -- `tree.sql(dialect="hive", pretty=False, normalize=True)`
  pub render : Tree → String
  -- `isinstance(tree, exp.Insert)`
  pub is_insert : Tree → Bool
  -- `tree.args.get("expression")`, if that is an expression
  pub expression : Tree → Option Tree
  -- `tree.args.get("where").this`, if they are a WHERE with an expression
  pub where_condition : Tree → Option Tree
  -- `condition.flatten()` of an AND; `none` for any other condition
  pub and_terms : Tree → Option (List Tree)
  -- `join.args.get("on")` of each join that `tree.find_all` finds
  pub join_ons : Tree → List (Option Tree)
  -- `tree.args.get("group").expressions`, if that is a GROUP BY
  pub group_items : Tree → Option (List Tree)
  -- `tree.find(exp.Insert)`
  pub find_insert : Tree → Option Tree
  -- `insert.this`
  pub this : Tree → Option Tree
  -- whether reading the two trees raises one of the errors that `build_diff` catches
  pub comparison_fails : Tree → Tree → Bool

-- The flags that `build_diff` computes, and whether the trees could be compared.
pub record Comparison : Type 0 where
  pub succeeded : Bool
  pub removed_where : Bool
  pub removed_join : Bool
  pub changed_group : Bool
  pub changed_target : Bool

-- `protected.issubset(candidate)`
abbrev is_subset : List String → List String → Bool
is_subset xs ys = all (λ x. contains x ys) xs

-- The fallback without trees. `changed_target` keeps its initial `False`.
unfoldable pub compare_texts : TextRules → String → String → Comparison
unfolding normalized_codes
compare_texts rules expected candidate = record {
  succeeded = false;
  removed_where =
      mentions rules where_pattern expected && not (mentions rules where_pattern candidate);
  removed_join =
      mentions rules join_pattern expected && not (mentions rules join_pattern candidate);
  changed_group =
      xor (mentions rules group_pattern expected) (mentions rules group_pattern candidate);
  changed_target = false;
}

module _ {Tree : Type 0} (engine : SqlEngine Tree) where
  open engine use {
    rules, parse_one, render, is_insert, expression, where_condition, and_terms, join_ons,
    group_items, find_insert, this, comparison_fails,
  }

  abbrev canonical : Option Tree → Option String
  canonical none = none
  canonical (some tree) = some (render tree)

  -- `sql_equivalent`
  unfoldable pub sql_equivalent : String → String → Bool
  unfolding normalized_codes
  sql_equivalent left right = elim (canonical (parse_one left)) [
    | none ↦ same_codes (normalized_codes rules (codes left)) (normalized_codes rules (codes right))
    | some l ↦ elim (canonical (parse_one right)) [
      | none ↦
          same_codes (normalized_codes rules (codes left)) (normalized_codes rules (codes right))
      | some r ↦ l == r
    ]
  ]

  unfoldable pub candidate_matches_plan : String → String → RepairPlan → Bool
  candidate_matches_plan failed_sql candidate plan =
      elim (apply_repair_plan rules failed_sql plan) [
        | none ↦ false
        | some (expected, _) ↦ sql_equivalent expected candidate
      ]

  abbrev query_expression : Tree → Tree
  query_expression tree =
      if is_insert tree then elim (expression tree) [ none ↦ tree | some query ↦ query ] else tree

  abbrev terms_of : Option Tree → List String
  terms_of none = []
  terms_of (some condition) = elim (and_terms condition) [
    | none ↦ render condition ∷ []
    | some terms ↦ map render terms
  ]

  -- `_where_terms`, as a list
  unfoldable pub where_terms : Tree → List String
  where_terms tree = terms_of (where_condition (query_expression tree))

  -- `_join_conditions`
  unfoldable pub join_conditions : Tree → List (Option String)
  join_conditions tree = map canonical (join_ons tree)

  -- `_group_expressions`
  unfoldable pub group_expressions : Tree → List String
  group_expressions tree = elim (group_items (query_expression tree)) [
    | none ↦ []
    | some items ↦ map render items
  ]

  abbrev target_of : Option Tree → Option String
  target_of none = none
  target_of (some insert) = canonical (this insert)

  -- `_insert_target`
  unfoldable pub insert_target : Tree → Option String
  insert_target tree = target_of (if is_insert tree then some tree else find_insert tree)

  compare_trees : Tree → Tree → Comparison
  unfolding where_terms join_conditions group_expressions insert_target
  compare_trees expected candidate = record {
    succeeded = true;
    removed_where = not (is_subset (where_terms expected) (where_terms candidate));
    removed_join = not (same_conditions (join_conditions expected) (join_conditions candidate));
    changed_group = not (same_texts (group_expressions expected) (group_expressions candidate));
    changed_target = not (same_text (insert_target expected) (insert_target candidate));
  }

  compare_with : Option Tree → Option Tree → String → String → Comparison
  unfolding compare_trees compare_texts
  compare_with (some e) (some c) expected candidate =
      if comparison_fails e c then compare_texts rules expected candidate else compare_trees e c
  compare_with _ _ expected candidate = compare_texts rules expected candidate

  abbrev first_tree : Option Tree → Option Tree → Option Tree
  first_tree (some e) f = some e
  first_tree none f = f

  -- What `apply_repair_plan` expects: a text, and the fragments it changed.
  summarize : String → String → Option (String × List ChangedFragment) → SqlDiffSummary
  unfolding compare_with sql_equivalent static_partition
  summarize failed_sql candidate none =
      let c =
        compare_with (first_tree (parse_one "") (parse_one failed_sql)) (parse_one candidate)
          failed_sql candidate in
      record {
        changed_fragment_count = 0;
        changed_fragments = [];
        removed_where = c.removed_where;
        removed_join_condition = c.removed_join;
        changed_group_by = c.changed_group;
        changed_insert_target = c.changed_target;
        changed_static_partition =
            not (same_rest (static_partition rules failed_sql) (static_partition rules candidate));
        parse_success =
            not (is_none (parse_one failed_sql))
            && not (is_none (parse_one candidate))
            && c.succeeded;
      }
  summarize failed_sql candidate (some (expected, changes)) =
      let c =
        compare_with (first_tree (parse_one expected) (parse_one failed_sql)) (parse_one candidate)
          expected candidate in
      let matched = sql_equivalent expected candidate in
      record {
        changed_fragment_count = if matched then length changes else 0;
        changed_fragments = if matched then changes else [];
        removed_where = c.removed_where;
        removed_join_condition = c.removed_join;
        changed_group_by = c.changed_group;
        changed_insert_target = c.changed_target;
        changed_static_partition =
            not (same_rest (static_partition rules expected) (static_partition rules candidate));
        parse_success =
            not (is_none (parse_one failed_sql))
            && not (is_none (parse_one candidate))
            && c.succeeded;
      }

  unfoldable pub build_diff : String → SqlGenerationResult → RepairPlan → SqlDiffSummary
  unfolding summarize
  build_diff failed_sql generation plan =
      summarize failed_sql (text_or generation.sql_candidate "")
        (apply_repair_plan rules failed_sql plan)
