-- ===== src/Docker/Dag/Pipeline.antt =====
-- What `core.rs` and `graph.rs` do with a graph that the builder made.
use mathlib.Core.List.{Perm}
use memo_build.Prelude.{
  ℕ, zero, suc, ◌+◌, ◌-◌, ◌≤◌, ◌<◌, ◌≡◌, refl, ap, Bool, true, false, not, ◌&&◌, ◌||◌, Option, none,
  some, List, [], ◌∷◌, inl, inr, arith, ltb, ◌==◌, if◌then◌else◌, length, get_elem?,
  get_elem?-in_range, get_or, modify, length-modify, contains, any, Text,
}
use memo_build.Graph.{BuildGraph, deps_of}
use memo_build.Graph.Topo.Visits.{IsRanked}
use memo_build.Graph.Levels.{levels}
use memo_build.Graph.Levels.Flat.{flat_level, levels-flat}
use memo_build.Core.{soil, dirty_at, propagate_dirty}
use memo_build.Core.Dirty.{
  Tainted, here, via, dirty_at-modify, deps_of-modify, propagate_dirty-exact,
}
use memo_build.Docker.Instructions.{Instruction}
use memo_build.Docker.Dag.{build_graph_from_instructions}
use memo_build.Docker.Dag.Deps.{follows}
use memo_build.Docker.Dag.Backward.{
  AllBelow→below, graph_of-node, graph_of-IsRanked, length-graph_of,
}

-- The graph with one node marked as changed.
abbrev pub edit : ℕ → BuildGraph → BuildGraph
edit i graph = record graph { nodes = modify graph.nodes i soil }

any-contains :
    (n : ℕ) (deps : List ℕ) (d : ℕ)
    → contains deps d ≡ true
    → d < n
    → any (λ e. ltb e n) deps ≡ true
any-contains n [] d h lt = cc
any-contains n (e ∷ deps) d h lt = ground (arith, any-contains n deps d)

any_none :
    (n : ℕ) (deps : List ℕ)
    → ((d : ℕ) → contains deps d ≡ true → d < 0)
    → any (λ e. ltb e n) deps ≡ false
any_none n [] h = refl
any_none n (e ∷ deps) h = absurd (omega (arith, h e (ground arith)))

module _ (debug_instruction : Instruction → Text) (debug_texts : List Text → Text)
    (iter : List (Text × ℕ) → List (Text × ℕ)) (project_root : Text)
    (permutes : (m : List (Text × ℕ)) → Perm (iter m) m) (is : List Instruction) where
  abbrev graph : BuildGraph
  graph = build_graph_from_instructions debug_instruction debug_texts iter project_root is

  -- Instruction `j` is there and is no FROM.
  abbrev pub Follows : ℕ → Type 0
  Follows j = (instr : Instruction) × (get_elem? is j ≡ some instr) × (follows instr ≡ true)

  previous_dep : (j : ℕ) → Follows (suc j) → contains (deps_of graph.nodes (suc j)) j ≡ true
  previous_dep j (instr, given, f) =
      let (node, found, _, _, _, _, _, chained) =
        graph_of-node debug_instruction debug_texts iter project_root permutes is (suc j) instr
          given in
      rw found (ground (arith, chained))

  edit-Tainted :
      (i k : ℕ)
      → i + k < length is
      → ((m : ℕ) → i < m → m ≤ i + k → Follows m)
      → Tainted (edit i graph).nodes (i + k)
  edit-Tainted i zero lt run =
      let len = length-graph_of debug_instruction debug_texts iter project_root permutes is in
      here (ground (arith, dirty_at-modify graph.nodes i (i + 0), len))
  edit-Tainted i (suc k) lt run =
      let len = length-graph_of debug_instruction debug_texts iter project_root permutes is in
      let next : i + suc k ≡ suc (i + k) = omega arith in
      let dep = previous_dep (i + k) (run (suc (i + k)) (omega arith) (omega arith)) in
      rw next (
        via (rw deps_of-modify dep) (omega (arith, len, length-modify graph.nodes i soil))
          (edit-Tainted i k (omega arith) (λ m lo hi. run m lo (omega arith))))

  edit-IsRanked : (i : ℕ) → IsRanked (λ x. x) (edit i graph).nodes
  edit-IsRanked i x d m lt =
      graph_of-IsRanked debug_instruction debug_texts iter project_root permutes is x d
        (rw deps_of-modify at m) (rw length-modify at lt)

  -- In whatever order the map of copied sources is walked, a change to instruction `i` of a Dockerfile
  -- reaches instruction `j` behind it if no instruction after `i`, up to and with `j`, is a FROM:
  -- `propagate_dirty` marks node `j` for a rebuild.
  pub propagate_dirty-edit :
      (i j : ℕ)
      → i ≤ j
      → j < length is
      → ((m : ℕ) → i < m → m ≤ j → Follows m)
      → dirty_at (propagate_dirty (edit i graph)).nodes j ≡ true
  propagate_dirty-edit i j le lt run =
      let at : i + (j - i) ≡ j = omega arith in
      (propagate_dirty-exact (edit i graph) j (edit-IsRanked i)).1
        (rw at at (edit-Tainted i (j - i) (omega arith) (λ m lo hi. run m lo (omega arith))))

  abbrev starts : Option Instruction → Bool
  starts none = true
  starts (some instr) = not (follows instr)

  -- 0 for the first instruction and for each FROM, and 1 for the others.
  abbrev pub stage_level : ℕ → ℕ
  stage_level j = if j == 0 || starts (get_elem? is j) then 0 else 1

  flat_level-stage : (j : ℕ) → j < length is → flat_level graph.nodes j ≡ stage_level j
  flat_level-stage zero lt =
      let (instr, given) = get_elem?-in_range is 0 lt in
      let (node, found, _, _, below, _, _, _) =
        graph_of-node debug_instruction debug_texts iter project_root permutes is 0 instr given in
      rw (found, any_none (length graph.nodes) node.deps (AllBelow→below 0 node.deps below))
  flat_level-stage (suc p) lt =
      let (instr, given) = get_elem?-in_range is (suc p) lt in
      let (node, found, _, _, below, _, either, chained) =
        graph_of-node debug_instruction debug_texts iter project_root permutes is (suc p) instr
          given in
      let len = length-graph_of debug_instruction debug_texts iter project_root permutes is in
      elim either [
        | inl f ↦
            let dep =
              any-contains (length graph.nodes) node.deps p (ground (arith, chained))
                (omega (arith, len)) in
            rw (found, given, dep) (ground arith)
        | inr empty ↦
            rw (found, given, empty)
              (ground (arith, chained, ap (λ (l : List ℕ). contains l (suc p - 1)) empty))
      ]

  -- Of the groups that `levels` makes of the graph of a Dockerfile, group 0 has exactly the first
  -- instruction and every FROM, group 1 exactly all others, and any further group nothing.
  pub levels-stage :
      (groups : List (List ℕ))
      → levels graph ≡ some groups
      → (l j : ℕ) → contains (get_or groups l []) j ≡ (ltb j (length is) && stage_level j == l)
  levels-stage groups e l j =
      let len = length-graph_of debug_instruction debug_texts iter project_root permutes is in
      let ranked = graph_of-IsRanked debug_instruction debug_texts iter project_root permutes is in
      ground (arith, len, levels-flat graph (λ x. x) ranked groups e l j, flat_level-stage j)
