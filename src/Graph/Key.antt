-- ===== src/Graph/Key.antt =====
-- src/graph.rs, `Node::compute_node_key`. BLAKE3, the text of `{:?}` of a kind and the decimal digits of
-- a number are parameters; the fingerprint of the environment comes as its hash. The bytes that the
-- hasher is fed, one call after the other, are one text.
pub mod Order
use memo_build.Prelude.{
  ℕ, Bool, true, false, Option, none, some, List, [], ◌∷◌, ◌++◌, map, if◌then◌else◌, ltb, ◌==◌,
  ◌&&◌, ◌||◌, Text, codes, lookup, text_leb,
}
use memo_build.Prelude.Sorting.{sort_by}
use memo_build.Graph.{NodeKind, Node}

-- `sort`
unfoldable pub sort_texts : List Text → List Text
unfolding text_leb sort_by
sort_texts xs = sort_by text_leb xs

unfoldable pub concat_texts : List Text → Text
concat_texts [] = []
concat_texts (x ∷ xs) = x ++ concat_texts xs

abbrev pub optional : Option Text → Text
optional none = []
optional (some t) = t

abbrev pub assignment : Text → Option Text → Text
assignment key none = []
assignment key (some value) = key ++ codes "=" ++ value

abbrev pub keys : List (Text × Text) → List Text
keys env = map (λ (e : Text × Text). e.0) env

-- The entries of the environment, in the order of their keys.
unfoldable pub env_bytes : List (Text × Text) → Text
unfolding sort_texts concat_texts
env_bytes env = concat_texts (map (λ key. assignment key (lookup key env)) (sort_texts (keys env)))

abbrev bool_text : Bool → Text
bool_text true = codes "true"
bool_text false = codes "false"

module _ (blake3_hex : Text → Text) (debug_kind : NodeKind → Text) (to_string : ℕ → Text) where
  unfoldable pub compute_node_key : Node → List Text → Option Text → Option Text → Text
  unfolding env_bytes
  compute_node_key node dep_hashes context_hash env_fingerprint = blake3_hex (
      debug_kind node.kind
      ++ node.content
      ++ env_bytes node.env
      ++ optional context_hash
      ++ optional node.metadata.source_content_hash
      ++ concat_texts (sort_texts dep_hashes)
      ++ codes "parallelizable="
      ++ bool_text node.metadata.parallelizable
      ++ codes "priority="
      ++ to_string node.metadata.priority
      ++ optional env_fingerprint)
