-- ===== src/Agent/Graph.antt =====
-- `_validate_no_cycle` of agent/planning/execution_plan_validator.py: the depth-first search over
-- the dependencies. The recursion of `visit` takes fuel; with one unit more than there are steps it
-- never runs out, which Graph/Total proves. `visiting` is the path of the calls that are open: each
-- call removes its node again before it returns.
pub mod Spec
pub mod Pigeonhole
pub mod Sound
pub mod Complete
pub mod Total
pub mod Decides
use sql_self_healing_agent.Prelude.{
  ℕ, zero, suc, String, Bool, true, false, Option, none, some, List, [], ◌∷◌, ◌==◌, contains,
  length, if◌then◌else◌,
}

-- `{step.step_id: step.depends_on for step in plan.steps}`; the identifiers are distinct there.
abbrev pub DependencyGraph : Type 0
DependencyGraph = List (String × List String)

abbrev pub nodes : DependencyGraph → List String
nodes [] = []
nodes ((n, _) ∷ g) = n ∷ nodes g

-- `graph[node]`; `none` is a KeyError
unfoldable pub dependencies : DependencyGraph → String → Option (List String)
dependencies [] node = none
dependencies ((n, ds) ∷ g) node = if n == node then some ds else dependencies g node

-- How a visit ends: with the nodes visited so far, the last first, or with an exception.
pub data Search : Type 0 where
  found : List String → Search
  cycle : Search
  key_error : Search
  exhausted : Search

-- An exception ends the search.
abbrev pub and_then : Search → (List String → Search) → Search
and_then (found visited) next = next visited
and_then cycle next = cycle
and_then key_error next = key_error
and_then exhausted next = exhausted

-- `for dependency in ...: visit(dependency)`
unfoldable pub visit_all : (String → List String → Search) → List String → List String → Search
visit_all visit [] visited = found visited
visit_all visit (d ∷ ds) visited =
    and_then (visit d visited) (λ visited'. visit_all visit ds visited')

unfoldable pub close : String → Search → Search
close node (found visited) = found (node ∷ visited)
close node cycle = cycle
close node key_error = key_error
close node exhausted = exhausted

unfoldable pub open_node :
    (String → List String → Search) → String → Option (List String) → List String → Search
open_node visit node none visited = key_error
open_node visit node (some ds) visited = close node (visit_all visit ds visited)

unfoldable pub visit : DependencyGraph → ℕ → List String → String → List String → Search
visit g zero visiting node visited = exhausted
visit g (suc fuel) visiting node visited =
    let opened = open_node (visit g fuel (node ∷ visiting)) node (dependencies g node) visited in
    if contains node visiting
    then cycle
    else if contains node visited
    then found visited
    else opened

-- `for node in graph: visit(node)`
unfoldable pub visit_graph : DependencyGraph → Search
unfolding visit visit_all
visit_graph g = visit_all (visit g (suc (length (nodes g))) []) (nodes g) []

unfoldable pub has_cycle : DependencyGraph → Bool
unfolding visit_graph
has_cycle g = elim (visit_graph g) [ found _ ↦ false | _ ↦ true ]
