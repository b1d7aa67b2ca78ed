-- ===== src/Tests/Graphs.antt =====
-- The order, the levels and the dirty flags of the sample graph.
use memo_build.Prelude.{
  contains_str, ℕ, zero, suc, ◌-◌, ◌≤◌, ◌<◌, ◌≡◌, refl, ◌↔◌, ◌⊎◌, ◌&&◌, ◌==◌, ltb, true, false,
  some, List, [], ◌∷◌, arith, length, contains, distinct, get_or, get_elem?, Text, codes,
}
use memo_build.Graph.{Node, deps_of}
use memo_build.Graph.Topo.{topological_order, dfs_topo, visit_roots, visit_deps}
use memo_build.Graph.Topo.Visits.{DependentsFirst, IsRanked}
use memo_build.Graph.Topo.Order.{
  IsListing, topological_order-IsListing, topological_order-DependentsFirst,
}
use memo_build.Graph.Levels.{levels, node_levels, group, assign_levels, max_dep_level}
use memo_build.Graph.Levels.Groups.{AllBelow, levels-partition}
use memo_build.Core.{dirty_at, propagate_dirty}
use memo_build.Core.Dirty.{Tainted, propagate_dirty-exact}
use memo_build.Docker.Dag.{
  build_graph_from_instructions, build_from, node_of, parts_of, run_parts, from_parts, copy_parts,
  cmd_parts, track, run_deps,
}
use memo_build.Docker.Dag.Backward.{graph_of-IsRanked, graph_of-node}
use memo_build.Docker.Instructions.{Instruction, from_, run, cmd}
use memo_build.Docker.Dag.Deps.{follows}
use memo_build.Docker.Dag.Pipeline.{edit, propagate_dirty-edit, levels-stage, stage_level}
use memo_build.Tests.Samples.{
  instructions, no_debug, no_texts, in_order, root, in_order-perm, sample,
}

built : Unit {0}
unfolding build_graph_from_instructions build_from node_of parts_of run_parts from_parts copy_parts
    cmd_parts track run_deps contains_str
built = tt

search : Unit {0}
unfolding topological_order visit_roots dfs_topo visit_deps
search = tt

sample_deps : (deps_of sample.nodes 0 ≡ []) × (deps_of sample.nodes 2 ≡ 1 ∷ [])
unfolding built
sample_deps = (refl, refl)

topological_order-sample : topological_order sample ≡ some (3 ∷ 2 ∷ 1 ∷ 0 ∷ [])
unfolding built search
topological_order-sample = refl

pub levels-sample : levels sample ≡ some ((0 ∷ []) ∷ (1 ∷ 2 ∷ 3 ∷ []) ∷ [])
unfolding built search levels node_levels group assign_levels max_dep_level
levels-sample = refl

-- Node 3 runs after node 2, which runs after the COPY.
after_copy :
    (m : ℕ)
    → 1 < m
    → m ≤ 3
    → (instr : Instruction) × (get_elem? instructions m ≡ some instr) × (follows instr ≡ true)
after_copy zero lo hi = absurd (omega arith)
after_copy (suc zero) lo hi = absurd (omega arith)
after_copy (suc (suc zero)) lo hi = (run (codes "make app"), refl, refl)
after_copy (suc (suc (suc zero))) lo hi = (cmd (codes "run"), refl, refl)
after_copy (suc (suc (suc (suc m)))) lo hi = absurd (omega arith)

propagate_dirty-edit_example : dirty_at (propagate_dirty (edit 1 sample)).nodes 3 ≡ true
propagate_dirty-edit_example =
    propagate_dirty-edit no_debug no_texts in_order root in_order-perm instructions 1 3
      (omega arith) (omega arith) after_copy

sample-IsRanked : IsRanked (λ x. x) sample.nodes
sample-IsRanked = graph_of-IsRanked no_debug no_texts in_order root in_order-perm instructions

propagate_dirty-exact_example :
    (dirty_at (propagate_dirty sample).nodes 3 ≡ true) ↔ Tainted sample.nodes 3
propagate_dirty-exact_example = propagate_dirty-exact sample 3 sample-IsRanked

topological_order-IsListing_example :
    (order : List ℕ) × (topological_order sample ≡ some order)
    × IsListing (length sample.nodes) order
topological_order-IsListing_example = topological_order-IsListing sample

levels-partition_example :
    (ls : List ℕ) × (groups : List (List ℕ)) × (node_levels sample ≡ some ls)
    × (levels sample ≡ some groups)
    × ((l x : ℕ)
        → contains (get_or groups l []) x ≡ (ltb x (length sample.nodes) && get_or ls x 0 == l))
levels-partition_example = levels-partition sample

topological_order-DependentsFirst_example : DependentsFirst sample.nodes (3 ∷ 2 ∷ 1 ∷ 0 ∷ [])
topological_order-DependentsFirst_example =
    topological_order-DependentsFirst sample (3 ∷ 2 ∷ 1 ∷ 0 ∷ []) (λ x. x) topological_order-sample
      sample-IsRanked

levels-stage_example : contains (get_or ((0 ∷ []) ∷ (1 ∷ 2 ∷ 3 ∷ []) ∷ []) 1 []) 3 ≡ (
    ltb 3 (length instructions)
    && stage_level no_debug no_texts in_order root in_order-perm instructions 3 == 1)
levels-stage_example =
    levels-stage no_debug no_texts in_order root in_order-perm instructions
      ((0 ∷ []) ∷ (1 ∷ 2 ∷ 3 ∷ []) ∷ []) levels-sample 1 3

graph_of-node_example :
    (node : Node) × (get_elem? sample.nodes 2 ≡ some node)
    × (node.id ≡ 2)
    × (node.dirty ≡ false)
    × AllBelow 2 node.deps
    × (distinct node.deps ≡ true)
    × ((follows (run (codes "make app")) ≡ true) ⊎ (node.deps ≡ []))
    × (contains node.deps (2 - 1) ≡ (follows (run (codes "make app")) && ltb 0 2))
graph_of-node_example =
    graph_of-node no_debug no_texts in_order root in_order-perm instructions 2
      (run (codes "make app")) refl

abbrev identity : Text → Text
identity t = t

abbrev first_node : Node
first_node = node_of no_debug no_texts in_order root 0 (from_ (codes "alpine")) []
