-- ===== src/Agent/Graph/Total.antt =====
-- On a graph whose dependencies are all nodes the search raises no KeyError, and the fuel of
-- `visit_graph` is enough.
use sql_self_healing_agent.Prelude.{
  ℕ, zero, suc, ◌+◌, ◌<◌, String, ◌≡◌, true, some, List, [], ◌∷◌, ◌==◌, contains, length, arith,
  Bool-cases, inl, inr,
}
use sql_self_healing_agent.Agent.Graph.{
  DependencyGraph, nodes, dependencies, Search, found, cycle, key_error, exhausted, and_then,
  visit_all, close, open_node, visit, visit_graph,
}
use sql_self_healing_agent.Agent.Graph.Spec.{Distinct, Closed}
use sql_self_healing_agent.Agent.Graph.Pigeonhole.{Inside, Inside-self, pigeonhole}

-- The search has an answer: an order, or a cycle.
abbrev pub IsAnswer : Search → Type 0
IsAnswer (found _) = Unit
IsAnswer cycle = Unit
IsAnswer key_error = ⊥
IsAnswer exhausted = ⊥

module _ (g : DependencyGraph) where
  -- A node has dependencies, and they are nodes.
  record HasDependencies (h : DependencyGraph) (n : String) : Type 0 where
    listed : List String
    at_node : dependencies h n ≡ some listed
    inside : Inside (nodes g) listed

  dependencies-Closed :
      (h : DependencyGraph) (n : String)
      → Closed g h
      → contains n (nodes h) ≡ true
      → HasDependencies h n
  unfolding dependencies
  dependencies-Closed [] n c m = cc
  dependencies-Closed ((k, ds) ∷ h) n c m = elim (Bool-cases (k == n)) [
    | inl same ↦ record { listed = ds; at_node = ground arith; inside = c.0 }
    | inr other ↦
        let rest = dependencies-Closed h n c.1 (ground arith) in
        record {
          listed = rest.listed;
          at_node = ground (arith, rest.at_node);
          inside = rest.inside;
        }
  ]

  module _ (go : String → List String → Search)
      (answers : (d : String) (v : List String)
        → contains d (nodes g) ≡ true
        → IsAnswer (go d v)) where
    and_then-IsAnswer :
        (s : Search) (next : List String → Search)
        → IsAnswer s
        → ((u : List String) → IsAnswer (next u))
        → IsAnswer (and_then s next)
    and_then-IsAnswer (found u) next a rest = rest u
    and_then-IsAnswer cycle next a rest = tt
    and_then-IsAnswer key_error next a rest = a
    and_then-IsAnswer exhausted next a rest = a

    visit_all-IsAnswer : (ds v : List String) → Inside (nodes g) ds → IsAnswer (visit_all go ds v)
    unfolding visit_all
    visit_all-IsAnswer [] v i = tt
    visit_all-IsAnswer (d ∷ ds) v i =
        and_then-IsAnswer (go d v) (λ u. visit_all go ds u) (answers d v i.0)
          (λ u. visit_all-IsAnswer ds u i.1)

    close-IsAnswer : (n : String) (s : Search) → IsAnswer s → IsAnswer (close n s)
    unfolding close
    close-IsAnswer n (found u) a = tt
    close-IsAnswer n cycle a = tt
    close-IsAnswer n key_error a = a
    close-IsAnswer n exhausted a = a

    open_node-IsAnswer :
        (n : String) (v : List String)
        → HasDependencies g n
        → IsAnswer (open_node go n (dependencies g n) v)
    unfolding open_node
    open_node-IsAnswer n v h =
        rw h.at_node
          (close-IsAnswer n (visit_all go h.listed v) (visit_all-IsAnswer h.listed v h.inside))

  visit-IsAnswer :
      (fuel : ℕ) (visiting : List String) (n : String) (v : List String)
      → Closed g g
      → Distinct visiting
      → Inside (nodes g) visiting
      → contains n (nodes g) ≡ true
      → length (nodes g) < length visiting + fuel
      → IsAnswer (visit g fuel visiting n v)
  unfolding visit
  visit-IsAnswer zero visiting n v c d i m b =
      absurd (omega (arith, pigeonhole visiting (nodes g) d i))
  visit-IsAnswer (suc fuel) visiting n v c d i m b = elim (Bool-cases (contains n visiting)) [
    | inl busy ↦ rw busy tt
    | inr fresh ↦ elim (Bool-cases (contains n v)) [
      | inl old ↦ rw (fresh, old) tt
      | inr new ↦
          rw (fresh, new)
            (open_node-IsAnswer (visit g fuel (n ∷ visiting))
              (λ b' u h.
                visit-IsAnswer fuel (n ∷ visiting) b' u c (fresh, d) (m, i) h (omega arith))
              n v (dependencies-Closed g n c m))
    ]
  ]

  pub visit_graph-IsAnswer : Closed g g → IsAnswer (visit_graph g)
  unfolding visit_graph
  visit_graph-IsAnswer c =
      visit_all-IsAnswer (visit g (suc (length (nodes g))) [])
        (λ d v m. visit-IsAnswer (suc (length (nodes g))) [] d v c tt tt m (omega arith)) (nodes g)
        [] (Inside-self (nodes g))
