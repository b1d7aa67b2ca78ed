-- ===== src/Ai/Keeps.antt =====
-- What the analysis leaves as it is, and which nodes it makes parallelizable.
use memo_build.Prelude.{
  ℕ, zero, suc, ◌≡◌, refl, ap, ◌∙◌, ◌||◌, List, [], ◌∷◌, map, modify, inl, inr, Bool-cases, Text,
  codes, contains_str,
}
use memo_build.Graph.{NodeKind, Node, BuildGraph, default_metadata}
use memo_build.Ai.{
  Files, add_extra, apply_extra, collect_extra, analyze_dependencies, prioritize, optimize_node,
  optimize_graph, analyze,
}

-- A node without its metadata.
abbrev pub bare : Node → Node
bare node = record node { metadata = default_metadata }

add_extra-bare : (deps : List Text) (node : Node) → bare (add_extra deps node) ≡ bare node
unfolding add_extra
add_extra-bare [] node = refl
add_extra-bare (dep ∷ deps) node = add_extra-bare deps _

add_extra-parallelizable :
    (deps : List Text) (node : Node)
    → (add_extra deps node).metadata.parallelizable ≡ node.metadata.parallelizable
unfolding add_extra
add_extra-parallelizable [] node = refl
add_extra-parallelizable (dep ∷ deps) node = add_extra-parallelizable deps _

module _ {A : Type 0} (view : Node → A) (f : Node → Node)
    (same : (node : Node) → view (f node) ≡ view node) where
  map-modify : (nodes : List Node) (i : ℕ) → map view (modify nodes i f) ≡ map view nodes
  map-modify [] i = refl
  map-modify (x ∷ nodes) zero = ap (λ a. a ∷ map view nodes) (same x)
  map-modify (x ∷ nodes) (suc i) = ap (λ l. view x ∷ l) (map-modify nodes i)

apply_extra-map :
    {A : Type 0} (view : Node → A)
    → ((deps : List Text) (node : Node) → view (add_extra deps node) ≡ view node)
    → (extra : List (ℕ × List Text)) (nodes : List Node)
    → map view (apply_extra extra nodes) ≡ map view nodes
unfolding apply_extra
apply_extra-map view same [] nodes = refl
apply_extra-map view same ((id, deps) ∷ rest) nodes =
    apply_extra-map view same rest (modify nodes id (add_extra deps))
    ∙ map-modify view (add_extra deps) (same deps) nodes id

prioritize-bare : (node : Node) (kind : NodeKind) → bare (prioritize node kind) ≡ bare node
unfolding prioritize
prioritize-bare node NodeKind.run =
    elim (Bool-cases
      (contains_str node.content (codes "test") || contains_str node.content (codes "build"))) [
        | inl e ↦ rw e refl
        | inr e ↦ rw e refl
      ]
prioritize-bare node NodeKind.from_ = refl
prioritize-bare node NodeKind.env = refl
prioritize-bare node NodeKind.workdir = refl
prioritize-bare node NodeKind.cmd = refl
prioritize-bare node NodeKind.other = refl
prioritize-bare node (NodeKind.copy src dst) = refl
prioritize-bare node (NodeKind.git url target) = refl
prioritize-bare node (NodeKind.run_extend command par) = refl
prioritize-bare node (NodeKind.copy_extend src dst tags) = refl
prioritize-bare node (NodeKind.custom_hook name params) = refl

optimize_node-bare : (node : Node) → bare (optimize_node node) ≡ bare node
unfolding optimize_node
optimize_node-bare node = prioritize-bare node node.kind

map-map-same :
    {A : Type 0} (view : Node → A) (f : Node → Node)
    → ((node : Node) → view (f node) ≡ view node)
    → (nodes : List Node) → map view (map f nodes) ≡ map view nodes
map-map-same view f same [] = refl
map-map-same view f same (x ∷ nodes) =
    ap (λ a. a ∷ map view (map f nodes)) (same x)
    ∙ ap (λ l. view x ∷ l) (map-map-same view f same nodes)

module _ (files : Files) (context_dir : Text) (graph : BuildGraph) where
  -- Whatever the files hold, the analysis changes nothing but the nodes' metadata: their number, order,
  -- texts, kinds, hashes, dependencies, sources and flags stay as they are.
  pub analyze-bare : map bare (analyze files context_dir graph).nodes ≡ map bare graph.nodes
  unfolding analyze optimize_graph analyze_dependencies
  analyze-bare =
      map-map-same bare optimize_node optimize_node-bare _
      ∙ apply_extra-map bare add_extra-bare (collect_extra files context_dir graph.nodes)
          graph.nodes
