-- ===== src/Graph/Levels.antt =====
-- src/graph.rs, `BuildGraph::levels`: the level of each node, and the nodes by their level.
pub mod Groups
pub mod Flat
pub mod Whole
use memo_build.Prelude.{
  ℕ, zero, suc, ◌+◌, max, Option, some, List, [], ◌∷◌, ◌++◌, ltb, if◌then◌else◌, length, get_or,
  set, replicate, ◌>>=◌,
}
use memo_build.Graph.{Node, BuildGraph, deps_of}
use memo_build.Graph.Topo.{topological_order}

-- The loop over the dependencies of one node.
unfoldable pub max_dep_level : ℕ → List ℕ → ℕ → List ℕ → ℕ
max_dep_level n node_levels acc [] = acc
max_dep_level n node_levels acc (dep ∷ deps) =
    max_dep_level n node_levels (if ltb dep n then max acc (get_or node_levels dep 0 + 1) else acc)
      deps

-- The loop over the order.
unfoldable pub assign_levels : List Node → List ℕ → List ℕ → List ℕ
assign_levels nodes node_levels [] = node_levels
assign_levels nodes node_levels (x ∷ rest) =
    assign_levels nodes
      (set node_levels x (max_dep_level (length nodes) node_levels 0 (deps_of nodes x))) rest

-- `iter().max().unwrap_or(0)`
unfoldable pub maximum : List ℕ → ℕ
maximum [] = 0
maximum (x ∷ xs) = max x (maximum xs)

-- `result[level].push(id)` for each index from `id` on, with its level.
unfoldable pub push_all : List (List ℕ) → ℕ → List ℕ → List (List ℕ)
push_all result id [] = result
push_all result id (level ∷ rest) =
    push_all (set result level (get_or result level [] ++ id ∷ [])) (id + 1) rest

unfoldable pub group : List ℕ → List (List ℕ)
unfolding push_all maximum
group node_levels = push_all (replicate (maximum node_levels + 1) []) 0 node_levels

unfoldable pub node_levels : BuildGraph → Option (List ℕ)
node_levels graph = do
  order ← topological_order graph
  some (assign_levels graph.nodes (replicate (length graph.nodes) 0) order)

unfoldable pub levels : BuildGraph → Option (List (List ℕ))
levels graph = do assigned ← node_levels graph; some (group assigned)
