-- ===== src/Agent/Graph/Spec.antt =====
-- Cycles and topological orders of a dependency graph, said without the search.
use sql_self_healing_agent.Prelude.{String, ◌≡◌, true, false, some, List, [], ◌∷◌, contains, All}
use sql_self_healing_agent.Agent.Graph.{DependencyGraph, nodes, dependencies}

-- `a` depends on `b`.
pub record DependsOn (g : DependencyGraph) (a b : String) : Type 0 where
  pub listed : List String
  pub at_node : dependencies g a ≡ some listed
  pub member : contains b listed ≡ true

-- `a` depends on `b` over one step or more.
pub data Reaches (g : DependencyGraph) : String → String → Type 0 where
  one : {a b : String} → DependsOn g a b → Reaches g a b
  more : {a b c : String} → DependsOn g a c → Reaches g c b → Reaches g a b

abbrev pub IsAcyclic : DependencyGraph → Type 0
IsAcyclic g = (n : String) → Reaches g n n → ⊥

abbrev pub Distinct : List String → Type 0
Distinct [] = Unit
Distinct (x ∷ xs) = (contains x xs ≡ false) × Distinct xs

-- Every dependency of every node is a node.
abbrev pub Closed : DependencyGraph → DependencyGraph → Type 0
Closed g [] = Unit
Closed g ((n, ds) ∷ rest) = All (λ d. contains d (nodes g) ≡ true) ds × Closed g rest
