-- ===== src/Graph/Levels/Flat.antt =====
-- The levels of a graph with no cycle of dependencies.
use memo_build.Prelude.{
  ℕ, ◌+◌, ◌<◌, max, ◌≡◌, refl, sym, ap, ◌∙◌, Bool, true, ◌&&◌, some, List, [], ◌∷◌, arith, ltb,
  ◌==◌, if◌then◌else◌, length, get_or, set, get_or-set, length-set, replicate, length-replicate,
  get_or-replicate, contains, distinct, any, some_inj,
}
use memo_build.Graph.{Node, BuildGraph, deps_of}
use memo_build.Graph.Topo.Visits.{DependentsFirst, IsRanked}
use memo_build.Graph.Topo.Order.{topological_order-IsListing, topological_order-DependentsFirst}
use memo_build.Graph.Levels.Groups.{levels-partition}
use memo_build.Graph.Levels.{max_dep_level, assign_levels, node_levels, levels}

-- Whether a node has a dependency that is a node of the graph.
abbrev pub has_dep : List Node → ℕ → Bool
has_dep nodes x = any (λ d. ltb d (length nodes)) (deps_of nodes x)

abbrev pub flat_level : List Node → ℕ → ℕ
flat_level nodes x = if has_dep nodes x then 1 else 0

max_dep_level_flat :
    (n : ℕ) (ls : List ℕ) (acc : ℕ) (deps : List ℕ)
    → ((d : ℕ) → contains deps d ≡ true → d < n → get_or ls d 0 ≡ 0)
    → max_dep_level n ls acc deps ≡ max acc (if any (λ d. ltb d n) deps then 1 else 0)
unfolding max_dep_level
max_dep_level_flat n ls acc [] h = omega arith
max_dep_level_flat n ls acc (d ∷ deps) h = ground (
  arith,
  h d,
  max_dep_level_flat n ls (if ltb d n then max acc (get_or ls d 0 + 1) else acc) deps
      (λ e m. h e (ground arith)),
)

module _ (nodes : List Node) where
  assign_levels_flat :
      (order ls : List ℕ)
      → length ls ≡ length nodes
      → DependentsFirst nodes order
      → distinct order ≡ true
      → ((x : ℕ) → contains order x ≡ true → x < length nodes)
      → ((x : ℕ) → contains order x ≡ true → get_or ls x 0 ≡ 0)
      → (x : ℕ)
      → get_or (assign_levels nodes ls order) x 0
        ≡ (if contains order x then flat_level nodes x else get_or ls x 0)
  unfolding assign_levels
  assign_levels_flat [] ls size first once low idle x = refl
  assign_levels_flat (y ∷ rest) ls size first once low idle x =
      let level = max_dep_level (length nodes) ls 0 (deps_of nodes y) in
      let flat : level ≡ flat_level nodes y =
        max_dep_level_flat (length nodes) ls 0 (deps_of nodes y)
          (λ d m lt. idle d (ground (arith, first.0 d m lt)))
        ∙ omega arith in
      ground (
        arith,
        flat,
        low y,
        get_or-set ls y x level 0,
        assign_levels_flat rest (set ls y level) (length-set ls y level ∙ size) first.1
            (ground arith) (λ z m. low z (ground arith))
            (λ z m. ground (arith, get_or-set ls y z level 0, idle z)) x,
      )

module _ (graph : BuildGraph) (rank : ℕ → ℕ) (ranked : IsRanked rank graph.nodes) where
  node_levels-flat :
      (ls : List ℕ)
      → node_levels graph ≡ some ls
      → (x : ℕ) → x < length graph.nodes
      → get_or ls x 0 ≡ flat_level graph.nodes x
  unfolding node_levels
  node_levels-flat ls e x lt =
      let (order, returns, listing) = topological_order-IsListing graph in
      let n = length graph.nodes in
      let same : assign_levels graph.nodes (replicate n 0) order ≡ ls =
        some_inj (rw returns at e) in
      rw (← same) (
        assign_levels_flat graph.nodes order (replicate n 0) (length-replicate n 0)
          (topological_order-DependentsFirst graph order rank returns ranked) listing.once
          (λ y m. ground (arith, listing.every y)) (λ y m. get_or-replicate n y 0) x
        ∙ ground (arith, listing.every x))

  -- If the dependencies have no cycle there are two levels at most: level 0 holds the nodes that have
  -- no dependency in the graph, and level 1 all the others, also those that depend on one another.
  pub levels-flat :
      (groups : List (List ℕ))
      → levels graph ≡ some groups
      → (l x : ℕ)
      → contains (get_or groups l []) x
        ≡ (ltb x (length graph.nodes) && flat_level graph.nodes x == l)
  levels-flat groups e l x =
      let (ls, groups', assigned, returns, parts) = levels-partition graph in
      let same : groups' ≡ groups = some_inj (sym returns ∙ e) in
      ground (
        arith,
        ap (λ (g : List (List ℕ)). contains (get_or g l []) x) same,
        parts l x,
        node_levels-flat ls assigned x,
      )
