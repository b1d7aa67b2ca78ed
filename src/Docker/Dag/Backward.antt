-- ===== src/Docker/Dag/Backward.antt =====
-- Where the nodes of a built graph stand and where their dependencies point.
use mathlib.Core.List.{Perm, not-mem-nil}
use mathlib.Core.List.{append-nil, append_assoc}
use memo_build.Prelude.{
  ℕ, zero, suc, ◌+◌, ◌-◌, ◌<◌, ◌≡◌, ◌⊎◌, refl, sym, ap, ◌∙◌, true, false, ◌&&◌, some, List, [], ◌∷◌,
  ◌++◌, arith, ltb, some_inj, length, get_elem?, get_elem?-in_range, lt_of_get_elem?, contains,
  distinct, Text, insert,
}
use memo_build.Graph.{Node, BuildGraph}
use memo_build.Docker.Instructions.{Instruction, copy}
use memo_build.Docker.Dag.{
  Builder, start, track, node_of, build_from, build_graph_from_instructions,
}
use memo_build.Docker.Dag.Deps.{
  SourcesBelow, SourcesBelow-mono, insert-SourcesBelow, follows, parts_of-DepsAt,
}
use memo_build.Core.Dirty.{deps-in_range}
use memo_build.Graph.Levels.Groups.{AllBelow}
use memo_build.Graph.Topo.Visits.{IsRanked}

below→AllBelow : (n : ℕ) (ds : List ℕ) → ((d : ℕ) → contains ds d ≡ true → d < n) → AllBelow n ds
below→AllBelow n [] h = tt
below→AllBelow n (d ∷ ds) h = (h d (ground arith), below→AllBelow n ds (λ e m. h e (ground arith)))

pub AllBelow→below : (n : ℕ) (ds : List ℕ) → AllBelow n ds → (d : ℕ) → contains ds d ≡ true → d < n
AllBelow→below n [] h d m = cc
AllBelow→below n (e ∷ ds) h d m = ground (arith, AllBelow→below n ds h.1 d)

module _ (debug_instruction : Instruction → Text) (debug_texts : List Text → Text)
    (iter : List (Text × ℕ) → List (Text × ℕ)) (project_root : Text)
    (permutes : (m : List (Text × ℕ)) → Perm (iter m) m) where
  abbrev node_at : ℕ → Instruction → List (Text × ℕ) → Node
  node_at = node_of debug_instruction debug_texts iter project_root

  abbrev build : ℕ → List Instruction → Builder → Builder
  build = build_from debug_instruction debug_texts iter project_root

  -- The nodes of the loop from number `i` on, without the accumulator.
  nodes_from : ℕ → List Instruction → Builder → List Node
  nodes_from i [] b = []
  nodes_from i (instr ∷ rest) b =
      node_at i instr b.copy_sources ∷ nodes_from (i + 1) rest (track i instr b)

  sources_track :
      (i : ℕ) (instr : Instruction) (b c : Builder)
      → b.copy_sources ≡ c.copy_sources
      → (track i instr b).copy_sources ≡ (track i instr c).copy_sources
  unfolding track
  sources_track i (copy src dst) b c e = ap (insert src i) e
  sources_track i _ b c e = e

  nodes_from_cong :
      (is : List Instruction) (i : ℕ) (b c : Builder)
      → b.copy_sources ≡ c.copy_sources
      → nodes_from i is b ≡ nodes_from i is c
  unfolding nodes_from
  nodes_from_cong [] i b c e = refl
  nodes_from_cong (instr ∷ is) i b c e = cc (
    e,
    nodes_from_cong is (i + 1) (track i instr b) (track i instr c) (sources_track i instr b c e),
  )

  build_from-nodes :
      (is : List Instruction) (i : ℕ) (b : Builder)
      → (build i is b).nodes ≡ b.nodes ++ nodes_from i is b
  unfolding build_from nodes_from
  build_from-nodes [] i b = sym (append-nil b.nodes)
  build_from-nodes (instr ∷ is) i b =
      let node = node_at i instr b.copy_sources in
      let b' : Builder = record (track i instr b) { nodes = b.nodes ++ node ∷ [] } in
      build_from-nodes is (i + 1) b'
      ∙ ap (λ l. (b.nodes ++ node ∷ []) ++ l) (nodes_from_cong is (i + 1) b' (track i instr b) refl)
      ∙ append_assoc b.nodes (node ∷ []) (nodes_from (i + 1) is (track i instr b))

  track-SourcesBelow :
      (i : ℕ) (instr : Instruction) (b : Builder)
      → SourcesBelow i b.copy_sources
      → SourcesBelow (i + 1) (track i instr b).copy_sources
  unfolding track
  track-SourcesBelow i (copy src dst) b low =
      insert-SourcesBelow i (i + 1) src b.copy_sources (omega arith)
        (SourcesBelow-mono i (i + 1) b.copy_sources (omega arith) low)
  track-SourcesBelow i _ b low = SourcesBelow-mono i (i + 1) b.copy_sources (omega arith) low

  -- Node `k` of a run from `i` on is the node of instruction `k`, placed at `i + k`.
  record Placed (i : ℕ) (is : List Instruction) (k : ℕ) (nodes : List Node) : Type 0 where
    instr : Instruction
    sources : List (Text × ℕ)
    given : get_elem? is k ≡ some instr
    found : get_elem? nodes k ≡ some (node_at (i + k) instr sources)
    low : SourcesBelow (i + k) sources

  nodes_from-Placed :
      (is : List Instruction) (i k : ℕ) (b : Builder)
      → SourcesBelow i b.copy_sources
      → k < length is
      → Placed i is k (nodes_from i is b)
  unfolding nodes_from
  nodes_from-Placed [] i k b low lt = elim lt [ ]
  nodes_from-Placed (instr ∷ is) i zero b low lt =
      let same : i ≡ i + 0 = omega arith in
      record {
        instr = instr;
        sources = b.copy_sources;
        given = refl;
        found = ap (λ (n : ℕ). some (node_at n instr b.copy_sources)) same;
        low = rw same at low;
      }
  nodes_from-Placed (instr ∷ is) i (suc k) b low lt =
      let p =
        nodes_from-Placed is (i + 1) k (track i instr b) (track-SourcesBelow i instr b low)
          (omega arith) in
      let same : i + 1 + k ≡ i + suc k = omega arith in
      record {
        instr = p.instr;
        sources = p.sources;
        given = p.given;
        found = p.found ∙ ap (λ (n : ℕ). some (node_at n p.instr p.sources)) same;
        low = rw same at p.low;
      }

  length-nodes_from :
      (is : List Instruction) (i : ℕ) (b : Builder) → length (nodes_from i is b) ≡ length is
  unfolding nodes_from
  length-nodes_from [] i b = refl
  length-nodes_from (instr ∷ is) i b = ap suc (length-nodes_from is (i + 1) (track i instr b))

  abbrev graph_of : List Instruction → BuildGraph
  graph_of = build_graph_from_instructions debug_instruction debug_texts iter project_root

  graph_of-nodes : (is : List Instruction) → (graph_of is).nodes ≡ nodes_from 0 is start
  unfolding build_graph_from_instructions
  graph_of-nodes is = build_from-nodes is 0 start

  pub length-graph_of : (is : List Instruction) → length (graph_of is).nodes ≡ length is
  length-graph_of is = rw graph_of-nodes (length-nodes_from is 0 start)

  -- Each instruction has its node, at its own number: its id is that number, it is clean, its
  -- dependencies are different nodes in front of it; a FROM has none, and of any other the node before
  -- it is one.
  pub graph_of-node :
      (is : List Instruction) (i : ℕ) (instr : Instruction)
      → get_elem? is i ≡ some instr
      → (node : Node) × (get_elem? (graph_of is).nodes i ≡ some node)
        × (node.id ≡ i)
        × (node.dirty ≡ false)
        × AllBelow i node.deps
        × (distinct node.deps ≡ true)
        × ((follows instr ≡ true) ⊎ (node.deps ≡ []))
        × (contains node.deps (i - 1) ≡ (follows instr && ltb 0 i))
  unfolding node_of
  graph_of-node is i instr e =
      let p =
        nodes_from-Placed is 0 i start (λ src idx m. absurd (not-mem-nil m))
          (lt_of_get_elem? is i e) in
      let same : p.instr ≡ instr = some_inj (sym p.given ∙ e) in
      let at : 0 + i ≡ i = omega arith in
      let found = p.found ∙ ap (λ (n : ℕ). some (node_at n p.instr p.sources)) at in
      let low : SourcesBelow i p.sources = λ src idx m. omega (arith, p.low src idx m) in
      let h =
        parts_of-DepsAt debug_instruction debug_texts iter project_root permutes i p.instr p.sources
          low in
      (
        node_at i p.instr p.sources,
        rw graph_of-nodes found,
        refl,
        refl,
        below→AllBelow i _ h.below,
        h.once,
        rw (← same) h.either,
        rw (← same) h.chained,
      )

  -- Every dependency of a built graph points backwards.
  pub graph_of-IsRanked : (is : List Instruction) → IsRanked (λ x. x) (graph_of is).nodes
  graph_of-IsRanked is x d m lt =
      let in_range : x < length is =
        omega (arith, deps-in_range (graph_of is).nodes x d m, length-graph_of is) in
      let (instr, given) = get_elem?-in_range is x in_range in
      let (node, found, _, _, below, _, _, _) = graph_of-node is x instr given in
      AllBelow→below x node.deps below d (rw found at m)
