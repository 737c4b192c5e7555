-- ===== src/Agent/Graph/Sound.antt =====
-- A search that ends has listed the nodes in a topological order, so there is no cycle.
use sql_self_healing_agent.Prelude.{
  ℕ, zero, suc, ◌≤◌, ◌<◌, String, ◌≡◌, refl, subst, true, Option, none, some, List, [], ◌∷◌, ◌==◌,
  contains, length, arith, eq_iff, eq_refl, Bool-cases, inl, inr, if◌then◌else◌,
}
use sql_self_healing_agent.Agent.Graph.{
  DependencyGraph, nodes, dependencies, Search, found, cycle, key_error, exhausted, and_then,
  visit_all, close, open_node, visit, visit_graph,
}
use sql_self_healing_agent.Agent.Graph.Spec.{DependsOn, Reaches, one, more, IsAcyclic}
use sql_self_healing_agent.Agent.Graph.Pigeonhole.{Inside, Inside-contains}

-- The place of the last occurrence, counted from the end.
height : String → List String → ℕ
height n [] = 0
height n (m ∷ vs) =
    let rest = height n vs in if contains n vs then rest else if m == n then suc (length vs) else 0

height-le : (n : String) (vs : List String) → height n vs ≤ length vs
unfolding height
height-le n [] = omega arith
height-le n (m ∷ vs) = ground (arith, height-le n vs)

module _ (g : DependencyGraph) where
  -- The dependencies of each entry stand behind it.
  abbrev pub Ordered : List String → Type 0
  Ordered [] = Unit
  Ordered (n ∷ vs) = ((b : String) → DependsOn g n b → contains b vs ≡ true) × Ordered vs

  Ordered-step :
      (vs : List String) (n b : String)
      → Ordered vs
      → contains n vs ≡ true
      → DependsOn g n b
      → (contains b vs ≡ true) × (height b vs < height n vs)
  unfolding height
  Ordered-step [] n b o m d = cc
  Ordered-step (v ∷ vs) n b o m d = elim (Bool-cases (contains n vs)) [
    | inl later ↦ ground (arith, Ordered-step vs n b o.1 later d)
    | inr last ↦
        let e : v ≡ n = (eq_iff v n).0 (ground arith) in
        let inside : contains b vs ≡ true = o.0 b (rw e d) in ground (arith, inside, height-le b vs)
  ]

  Ordered-Reaches :
      (vs : List String) {n b : String}
      → Ordered vs
      → contains n vs ≡ true
      → Reaches g n b
      → (contains b vs ≡ true) × (height b vs < height n vs)
  Ordered-Reaches vs o m (one {a = n} {b = b} d) = Ordered-step vs n b o m d
  Ordered-Reaches vs o m (more {a = n} {b = b} {c = c} d r) =
      let first = Ordered-step vs n c o m d in
      let later = Ordered-Reaches vs o first.0 r in (later.0, omega (arith, first.1, later.1))

  -- What a visit of `d` that ends adds to the order.
  record Extends (d : String) (v v' : List String) : Type 0 where
    ordered : Ordered v'
    listed : contains d v' ≡ true
    keeps : (k : String) → contains k v ≡ true → contains k v' ≡ true

  record ExtendsAll (ds v v' : List String) : Type 0 where
    ordered : Ordered v'
    listed : Inside v' ds
    keeps : (k : String) → contains k v ≡ true → contains k v' ≡ true

  module _ (go : String → List String → Search)
      (good : (d : String) (v v' : List String)
        → go d v ≡ found v'
        → Ordered v
        → Extends d v v') where
    visit_all-step :
        (d : String) (ds v v' : List String) (s : Search)
        → go d v ≡ s
        → and_then s (λ u. visit_all go ds u) ≡ found v'
        → Ordered v
        → ((u : List String) → visit_all go ds u ≡ found v' → Ordered u → ExtendsAll ds u v')
        → ExtendsAll (d ∷ ds) v v'
    visit_all-step d ds v v' (found u) e h o rest =
        let first = good d v u e o in
        let later = rest u h first.ordered in
        record {
          ordered = later.ordered;
          listed = (later.keeps d first.listed, later.listed);
          keeps = λ k m. later.keeps k (first.keeps k m);
        }
    visit_all-step d ds v v' cycle e h o rest = cc
    visit_all-step d ds v v' key_error e h o rest = cc
    visit_all-step d ds v v' exhausted e h o rest = cc

    visit_all-Extends :
        (ds v v' : List String) → visit_all go ds v ≡ found v' → Ordered v → ExtendsAll ds v v'
    unfolding visit_all
    visit_all-Extends [] v v' e o =
        let same : v ≡ v' = cc in
        record { ordered = subst Ordered same o; listed = tt; keeps = λ k h. rw (← same) h }
    visit_all-Extends (d ∷ ds) v v' e o =
        visit_all-step d ds v v' (go d v) refl e o (λ u h p. visit_all-Extends ds u v' h p)

    open_node-Extends :
        (n : String) (deps : Option (List String)) (v v' : List String)
        → dependencies g n ≡ deps
        → open_node go n deps v ≡ found v'
        → Ordered v
        → Extends n v v'
    unfolding open_node
    open_node-Extends n none v v' d e o = cc
    open_node-Extends n (some ds) v v' d e o = on (visit_all go ds v) refl e
      where
        on : (s : Search) → visit_all go ds v ≡ s → close n s ≡ found v' → Extends n v v'
        on (found u) h c =
            let all = visit_all-Extends ds v u h o in
            let same : (n ∷ u) ≡ v' = unfold close in cc in
            subst (λ w. Extends n v w) same
              (record {
                ordered = (
                  (λ b dep. Inside-contains b u ds all.listed (
                      let e' : dep.listed ≡ ds = ground (arith, dep.at_node, d) in
                      rw (← e') dep.member)),
                  all.ordered,
                );
                listed = ground (arith, eq_refl n);
                keeps = λ k m. ground (arith, all.keeps k m);
              })
        on cycle h c = unfold close in cc
        on key_error h c = unfold close in cc
        on exhausted h c = unfold close in cc

  visit-Extends :
      (fuel : ℕ) (visiting : List String) (d : String) (v v' : List String)
      → visit g fuel visiting d v ≡ found v'
      → Ordered v
      → Extends d v v'
  unfolding visit
  visit-Extends zero visiting d v v' e o = cc
  visit-Extends (suc fuel) visiting d v v' e o = elim (Bool-cases (contains d visiting)) [
    | inl busy ↦ ground arith
    | inr fresh ↦ elim (Bool-cases (contains d v)) [
      | inl old ↦
          let same : v ≡ v' = ground arith in
          record {
            ordered = subst Ordered same o;
            listed = rw (← same) old;
            keeps = λ k h. rw (← same) h;
          }
      | inr new ↦
          open_node-Extends (visit g fuel (d ∷ visiting)) (visit-Extends fuel (d ∷ visiting)) d
            (dependencies g d) v v' refl (ground arith) o
    ]
  ]

  -- A node with dependencies is listed in the graph.
  nodes-dependencies :
      (h : DependencyGraph) (n : String) (ds : List String)
      → dependencies h n ≡ some ds
      → contains n (nodes h) ≡ true
  unfolding dependencies
  nodes-dependencies [] n ds e = cc
  nodes-dependencies ((m, es) ∷ h) n ds e = ground (arith, nodes-dependencies h n ds)

  first_dependency : {n b : String} → Reaches g n b → contains n (nodes g) ≡ true
  first_dependency (one {a = n} d) = nodes-dependencies g n d.listed d.at_node
  first_dependency (more {a = n} d r) = nodes-dependencies g n d.listed d.at_node

  pub visit_graph-IsAcyclic : (v : List String) → visit_graph g ≡ found v → IsAcyclic g
  unfolding visit_graph
  visit_graph-IsAcyclic v e n r =
      let all =
        visit_all-Extends (visit g (suc (length (nodes g))) [])
          (visit-Extends (suc (length (nodes g))) []) (nodes g) [] v e tt in
      let inside : contains n v ≡ true =
        Inside-contains n v (nodes g) all.listed (first_dependency r) in
      omega (arith, (Ordered-Reaches v all.ordered inside r).1)
