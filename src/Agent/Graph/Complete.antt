-- ===== src/Agent/Graph/Complete.antt =====
-- When the search reports a cycle, the graph has one.
use sql_self_healing_agent.Prelude.{
  ℕ, zero, suc, String, ◌≡◌, refl, true, Option, none, some, List, [], ◌∷◌, ◌==◌, contains, length,
  All, arith, eq_iff, eq_refl, Bool-cases, inl, inr,
}
use sql_self_healing_agent.Agent.Graph.{
  DependencyGraph, nodes, dependencies, Search, found, cycle, key_error, exhausted, and_then,
  visit_all, close, open_node, visit, visit_graph,
}
use sql_self_healing_agent.Agent.Graph.Spec.{DependsOn, Reaches, one, more}

module _ (g : DependencyGraph) where
  -- A node that reaches itself.
  pub record Cycle : Type 0 where
    pub node : String
    pub round : Reaches g node node

  -- The open calls: each depends on the one that it opened.
  abbrev Chain : String → List String → Type 0
  Chain x [] = Unit
  Chain x (p ∷ ps) = DependsOn g p x × Chain p ps

  Reaches-snoc : {a b c : String} → Reaches g a b → DependsOn g b c → Reaches g a c
  Reaches-snoc (one d) e = more d (one e)
  Reaches-snoc (more d r) e = more d (Reaches-snoc r e)

  Chain-Reaches :
      (n x : String) (path : List String) → Chain x path → contains n path ≡ true → Reaches g n x
  Chain-Reaches n x [] c h = cc
  Chain-Reaches n x (p ∷ ps) c h = elim (Bool-cases (p == n)) [
    | inl same ↦ one (rw (← (eq_iff p n).0 same) c.0)
    | inr other ↦ Reaches-snoc (Chain-Reaches n p ps c.1 (ground arith)) c.0
  ]

  abbrev DependsOnAll : String → List String → Type 0
  DependsOnAll n ds = All (λ d. DependsOn g n d) ds

  depends_on_all :
      (n : String) (ds all : List String)
      → dependencies g n ≡ some all
      → ((k : String) → contains k ds ≡ true → contains k all ≡ true)
      → DependsOnAll n ds
  depends_on_all n [] all e sub = tt
  depends_on_all n (d ∷ ds) all e sub = (
    record { listed = all; at_node = e; member = sub d (ground (arith, eq_refl d)) },
    depends_on_all n ds all e (λ k h. sub k (ground arith)),
  )

  module _ (go : String → List String → Search) (n : String)
      (cycles : (d : String) (v : List String) → go d v ≡ cycle → DependsOn g n d → Cycle) where
    visit_all-step :
        (d : String) (ds v : List String) (s : Search)
        → go d v ≡ s
        → and_then s (λ u. visit_all go ds u) ≡ cycle
        → DependsOn g n d
        → ((u : List String) → visit_all go ds u ≡ cycle → Cycle)
        → Cycle
    visit_all-step d ds v (found u) e h dep rest = rest u h
    visit_all-step d ds v cycle e h dep rest = cycles d v e dep
    visit_all-step d ds v key_error e h dep rest = cc
    visit_all-step d ds v exhausted e h dep rest = cc

    visit_all-Cycle : (ds v : List String) → visit_all go ds v ≡ cycle → DependsOnAll n ds → Cycle
    unfolding visit_all
    visit_all-Cycle [] v e deps = cc
    visit_all-Cycle (d ∷ ds) v e deps =
        visit_all-step d ds v (go d v) refl e deps.0 (λ u h. visit_all-Cycle ds u h deps.1)

    open_node-Cycle :
        (deps : Option (List String)) (v : List String)
        → dependencies g n ≡ deps
        → open_node go n deps v ≡ cycle
        → Cycle
    unfolding open_node
    open_node-Cycle none v d e = cc
    open_node-Cycle (some ds) v d e =
        visit_all-Cycle ds v (on (visit_all go ds v) e) (depends_on_all n ds ds d (λ k h. h))
      where
        on : (s : Search) → close n s ≡ cycle → s ≡ cycle
        on (found u) c = unfold close in cc
        on cycle c = refl
        on key_error c = unfold close in cc
        on exhausted c = unfold close in cc

  visit-Cycle :
      (fuel : ℕ) (visiting : List String) (d : String) (v : List String)
      → visit g fuel visiting d v ≡ cycle
      → Chain d visiting
      → Cycle
  unfolding visit
  visit-Cycle zero visiting d v e c = cc
  visit-Cycle (suc fuel) visiting d v e c = elim (Bool-cases (contains d visiting)) [
    | inl busy ↦ record { node = d; round = Chain-Reaches d d visiting c busy }
    | inr fresh ↦
        open_node-Cycle (visit g fuel (d ∷ visiting)) d
          (λ b u h dep. visit-Cycle fuel (d ∷ visiting) b u h (dep, c)) (dependencies g d) v refl
          (ground arith)
  ]

  visit_nodes-step :
      (fuel : ℕ) (n : String) (ns : List String) (s : Search) (v : List String)
      → visit g fuel [] n v ≡ s
      → and_then s (λ u. visit_all (visit g fuel []) ns u) ≡ cycle
      → ((u : List String) → visit_all (visit g fuel []) ns u ≡ cycle → Cycle)
      → Cycle
  visit_nodes-step fuel n ns (found u) v e h rest = rest u h
  visit_nodes-step fuel n ns cycle v e h rest = visit-Cycle fuel [] n v e tt
  visit_nodes-step fuel n ns key_error v e h rest = cc
  visit_nodes-step fuel n ns exhausted v e h rest = cc

  visit_nodes-Cycle :
      (fuel : ℕ) (ns v : List String) → visit_all (visit g fuel []) ns v ≡ cycle → Cycle
  unfolding visit_all
  visit_nodes-Cycle fuel [] v e = cc
  visit_nodes-Cycle fuel (n ∷ ns) v e =
      visit_nodes-step fuel n ns (visit g fuel [] n v) v refl e
        (λ u h. visit_nodes-Cycle fuel ns u h)

  pub visit_graph-Cycle : visit_graph g ≡ cycle → Cycle
  unfolding visit_graph
  visit_graph-Cycle e = visit_nodes-Cycle (suc (length (nodes g))) (nodes g) [] e
