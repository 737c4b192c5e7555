-- ===== src/Agent/Graph/Decides.antt =====
-- The cycle check decides acyclicity.
use sql_self_healing_agent.Prelude.{◌≡◌, refl, ◌↔◌, false}
use sql_self_healing_agent.Agent.Graph.{
  DependencyGraph, Search, found, cycle, key_error, exhausted, visit_graph, has_cycle,
}
use sql_self_healing_agent.Agent.Graph.Spec.{IsAcyclic, Closed}
use sql_self_healing_agent.Agent.Graph.Sound.{visit_graph-IsAcyclic}
use sql_self_healing_agent.Agent.Graph.Complete.{visit_graph-Cycle}
use sql_self_healing_agent.Agent.Graph.Total.{IsAnswer, visit_graph-IsAnswer}

module _ (g : DependencyGraph) where
  decide : (s : Search) → visit_graph g ≡ s → IsAnswer s → (has_cycle g ≡ false) ↔ IsAcyclic g
  unfolding has_cycle
  decide (found v) e a = (λ _. visit_graph-IsAcyclic g v e, λ _. rw (e, has_cycle))
  decide cycle e a =
      let c = visit_graph-Cycle g e in
      ((λ h. cc (rw (e, has_cycle) at h)), λ acyclic. absurd (acyclic c.node c.round))
  decide key_error e a = absurd a
  decide exhausted e a = absurd a

  -- On a graph whose dependencies are all nodes the depth-first search ends with an answer, and it
  -- accepts exactly the graphs without a cycle: no node depends on itself over one step or more.
  pub has_cycle-decides : Closed g g → (has_cycle g ≡ false) ↔ IsAcyclic g
  has_cycle-decides c = decide (visit_graph g) refl (visit_graph-IsAnswer g c)
