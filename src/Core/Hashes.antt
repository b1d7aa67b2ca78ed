-- ===== src/Core/Hashes.antt =====
-- The hash under which `execution/executor.rs` caches a node, after the steps of `main.rs`:
-- `detect_changes`, `propagate_dirty`, `compute_composite_hashes`, `propagate_manifests`.
use memo_build.Prelude.{
  ℕ, zero, suc, ◌+◌, ◌≤◌, ◌<◌, ◌≡◌, refl, ap, ◌∙◌, true, some, List, [], ◌∷◌, map, arith, length,
  get_elem?, Text,
}
use memo_build.Graph.{Node, BuildGraph}
use memo_build.Core.{
  dirty_at, soil, hash_content, set_manifest, detect_changes, propagate_at, propagate_from,
  propagate_dirty, compute_composite_hashes, propagate_manifests,
}

module _ {ℓ κ} {A : Type ℓ} {B : Type κ} (f : A → B) where
  get_elem?-map :
      (xs : List A) (i : ℕ) (a : A) → get_elem? xs i ≡ some a → get_elem? (map f xs) i ≡ some (f a)
  get_elem?-map [] i a h = cc
  get_elem?-map (x ∷ xs) zero a h = ground arith
  get_elem?-map (x ∷ xs) (suc i) a h = get_elem?-map xs i a h

module _ {ℓ} {Env : Type ℓ} (blake3_hex : Text → Text) where
  -- The nodes of a graph, prepared for the executor.
  abbrev pub prepare : BuildGraph → Env → BuildGraph
  prepare graph env_fp =
      (propagate_manifests
        (compute_composite_hashes blake3_hex (propagate_dirty (detect_changes graph)) env_fp)).0

dirty_at-soil : (nodes : List Node) (i : ℕ) → i < length nodes → dirty_at (map soil nodes) i ≡ true
dirty_at-soil [] i lt = elim lt [ ]
dirty_at-soil (x ∷ nodes) zero lt = refl
dirty_at-soil (x ∷ nodes) (suc i) lt = dirty_at-soil nodes i (omega arith)

-- Where every node is dirty there is nothing to propagate.
propagate_from-soil :
    (nodes : List Node) (rounds i : ℕ)
    → i + rounds ≤ length nodes
    → propagate_from rounds i (map soil nodes) ≡ map soil nodes
unfolding propagate_from propagate_at
propagate_from-soil nodes zero i le = refl
propagate_from-soil nodes (suc rounds) i le =
    rw (dirty_at-soil nodes i (omega arith))
      (propagate_from-soil nodes rounds (i + 1) (omega arith))

length-soil : (nodes : List Node) → length (map soil nodes) ≡ length nodes
length-soil [] = refl
length-soil (x ∷ nodes) = ap suc (length-soil nodes)

module _ {ℓ} {Env : Type ℓ} (blake3_hex : Text → Text) (graph : BuildGraph) (env_fp : Env) where
  -- The hash under which a prepared node is cached is the digest of its instruction's text alone:
  -- neither its dependencies, nor its kind, its source files or the environment enter into it.
  pub prepare-hash :
      (i : ℕ) (node : Node)
      → get_elem? graph.nodes i ≡ some node
      → (node' : Node) × (get_elem? (prepare blake3_hex graph env_fp).nodes i ≡ some node')
        × (node'.hash ≡ blake3_hex node.content)
        × (node'.dirty ≡ true)
        × (node'.metadata.input_manifest_hash ≡ some (blake3_hex node.content))
  unfolding propagate_dirty propagate_manifests compute_composite_hashes detect_changes
  prepare-hash i node e =
      let nodes = graph.nodes in
      (
        set_manifest (hash_content blake3_hex (soil node)),
        rw
            (propagate_from-soil nodes (length (map soil nodes)) 0
              (omega (arith, length-soil nodes)))
            (get_elem?-map set_manifest (map (hash_content blake3_hex) (map soil nodes)) i _ (
              get_elem?-map (hash_content blake3_hex) (map soil nodes) i _
                (get_elem?-map soil nodes i node e))),
        refl,
        refl,
        refl,
      )

module _ (blake3_hex : Text → Text) where
  abbrev prepared : Node → Node
  prepared node = set_manifest (hash_content blake3_hex (soil node))

  prepared-map :
      (nodes : List Node)
      → map set_manifest (map (hash_content blake3_hex) (map soil nodes)) ≡ map prepared nodes
  prepared-map [] = refl
  prepared-map (x ∷ nodes) = ap (λ l. prepared x ∷ l) (prepared-map nodes)

  -- The preparation works node by node.
  prepare-nodes {ℓ} :
      {Env : Type ℓ} (graph : BuildGraph) (env_fp : Env)
      → (prepare blake3_hex graph env_fp).nodes ≡ map prepared graph.nodes
  unfolding propagate_dirty propagate_manifests compute_composite_hashes detect_changes
  prepare-nodes graph env_fp =
      let nodes = graph.nodes in
      rw (propagate_from-soil nodes (length (map soil nodes)) 0 (omega (arith, length-soil nodes)))
        (prepared-map nodes)

  map-prepared :
      {A : Type 0} (view view' : Node → A)
      → ((node : Node) → view (prepared node) ≡ view' node)
      → (nodes : List Node) → map view (map prepared nodes) ≡ map view' nodes
  map-prepared view view' same [] = refl
  map-prepared view view' same (x ∷ nodes) =
      ap (λ a. a ∷ map view (map prepared nodes)) (same x)
      ∙ ap (λ l. view' x ∷ l) (map-prepared view view' same nodes)

  pub prepare-contents {ℓ} :
      {Env : Type ℓ} (graph : BuildGraph) (env_fp : Env)
      → map (λ (n : Node). n.content) (prepare blake3_hex graph env_fp).nodes
        ≡ map (λ (n : Node). n.content) graph.nodes
  prepare-contents graph env_fp =
      ap (map (λ (n : Node). n.content)) (prepare-nodes graph env_fp)
      ∙ map-prepared (λ n. n.content) (λ n. n.content) (λ n. refl) graph.nodes

  pub prepare-hashes {ℓ} :
      {Env : Type ℓ} (graph : BuildGraph) (env_fp : Env)
      → map (λ (n : Node). n.hash) (prepare blake3_hex graph env_fp).nodes
        ≡ map (λ (n : Node). blake3_hex n.content) graph.nodes
  prepare-hashes graph env_fp =
      ap (map (λ (n : Node). n.hash)) (prepare-nodes graph env_fp)
      ∙ map-prepared (λ n. n.hash) (λ n. blake3_hex n.content) (λ n. refl) graph.nodes
