-- ===== src/Core.antt =====
-- src/core.rs: which nodes are to be rebuilt, and the hash under which a node is cached. BLAKE3 is
-- the parameter `blake3_hex`, from the bytes that a hasher was fed to the digest in hexadecimal.
pub mod Dirty
pub mod Hashes
use memo_build.Prelude.{
  ℕ, zero, suc, ◌+◌, Bool, false, true, ◌&&◌, Option, none, some, List, [], ◌∷◌, map, ltb,
  if◌then◌else◌, length, get_elem?, modify, Text,
}
use memo_build.Graph.{Node, BuildGraph, NodeMetadata, deps_of}

abbrev pub soil : Node → Node
soil node = record node { dirty = true }

unfoldable pub detect_changes : BuildGraph → BuildGraph
detect_changes graph = record graph { nodes = map soil graph.nodes }

abbrev dirty_of_option : Option Node → Bool
dirty_of_option none = false
dirty_of_option (some node) = node.dirty

-- `nodes[i].dirty`; the callers keep `i` in range.
abbrev pub dirty_at : List Node → ℕ → Bool
dirty_at nodes i = dirty_of_option (get_elem? nodes i)

-- The loop over the dependencies of one node, which ends at the first dirty one.
unfoldable pub has_dirty_dep : List Node → List ℕ → Bool
has_dirty_dep nodes [] = false
has_dirty_dep nodes (dep ∷ deps) =
    let rest = has_dirty_dep nodes deps in
    if ltb dep (length nodes) && dirty_at nodes dep then true else rest

-- The body of the loop over the nodes.
unfoldable pub propagate_at : List Node → ℕ → List Node
unfolding has_dirty_dep
propagate_at nodes i =
    if dirty_at nodes i
    then nodes
    else if has_dirty_dep nodes (deps_of nodes i)
    then modify nodes i soil
    else nodes

unfoldable pub propagate_from : ℕ → ℕ → List Node → List Node
propagate_from zero i nodes = nodes
propagate_from (suc rounds) i nodes = propagate_from rounds (i + 1) (propagate_at nodes i)

unfoldable pub propagate_dirty : BuildGraph → BuildGraph
propagate_dirty graph = record graph { nodes = propagate_from (length graph.nodes) 0 graph.nodes }

module _ (blake3_hex : Text → Text) where
  abbrev pub hash_content : Node → Node
  hash_content node = record node { hash = blake3_hex node.content }

  -- The fingerprint of the environment is an argument that the code does not use.
  unfoldable pub compute_composite_hashes {ℓ} : {Env : Type ℓ} → BuildGraph → Env → BuildGraph
  compute_composite_hashes graph env_fp = record graph { nodes = map hash_content graph.nodes }

abbrev pub set_manifest : Node → Node
set_manifest node = record node {
  metadata = record node.metadata { input_manifest_hash = some node.hash };
}

-- The graph, and the insertions into the map of manifests, in order.
unfoldable pub propagate_manifests : BuildGraph → BuildGraph × List (Text × NodeMetadata)
propagate_manifests graph =
    let nodes = map set_manifest graph.nodes in
    (record graph { nodes = nodes }, map (λ node. (node.hash, node.metadata)) nodes)
