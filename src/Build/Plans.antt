-- ===== src/Build/Plans.antt =====
-- What the steps in front of the executor make of the instructions' texts.
use memo_build.Prelude.{◌≡◌, refl, sym, ap, ◌∙◌, List, [], ◌∷◌, map, Text}
use memo_build.Graph.{Node, BuildGraph}
use memo_build.Core.Hashes.{prepare-contents, prepare-hashes}
use memo_build.Ai.{analyze}
use memo_build.Ai.Keeps.{bare, analyze-bare}
use memo_build.Build.{Context, graph_of, plan}
use memo_build.Executor.Rebuild.{hashes}

-- The texts of a graph's nodes.
abbrev pub contents : BuildGraph → List Text
contents graph = map (λ (node : Node). node.content) graph.nodes

contents-bare :
    (nodes : List Node)
    → map (λ (n : Node). n.content) (map bare nodes) ≡ map (λ (n : Node). n.content) nodes
contents-bare [] = refl
contents-bare (x ∷ nodes) = ap (λ l. x.content ∷ l) (contents-bare nodes)

map-contents :
    (f : Text → Text) (nodes : List Node)
    → map (λ (n : Node). f n.content) nodes ≡ map f (map (λ (n : Node). n.content) nodes)
map-contents f [] = refl
map-contents f (x ∷ nodes) = ap (λ l. f x.content ∷ l) (map-contents f nodes)

module _ {R W : Type 0} (ctx : Context R W) (context_dir : Text) (dockerfile : Text) where
  unfoldable analyzed : BuildGraph
  analyzed = analyze ctx.files context_dir (graph_of ctx context_dir dockerfile)

  analyzed-contents : contents analyzed ≡ contents (graph_of ctx context_dir dockerfile)
  unfolding analyzed
  analyzed-contents =
      let graph = graph_of ctx context_dir dockerfile in
      sym (contents-bare analyzed.nodes)
      ∙ ap (map (λ (n : Node). n.content)) (analyze-bare ctx.files context_dir graph)
      ∙ contents-bare graph.nodes

  -- The preparation changes no text.
  pub plan-contents :
      contents (plan ctx context_dir dockerfile).0 ≡ contents (graph_of ctx context_dir dockerfile)
  unfolding plan analyzed
  plan-contents = prepare-contents ctx.blake3_hex analyzed (tt {0}) ∙ analyzed-contents

  -- Each hash is the digest of a text.
  pub plan-hashes :
      hashes (plan ctx context_dir dockerfile).0
      ≡ map ctx.blake3_hex (contents (graph_of ctx context_dir dockerfile))
  unfolding plan analyzed
  plan-hashes =
      prepare-hashes ctx.blake3_hex analyzed (tt {0})
      ∙ map-contents ctx.blake3_hex analyzed.nodes
      ∙ ap (map ctx.blake3_hex) analyzed-contents
