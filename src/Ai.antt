-- ===== src/Ai.antt =====
-- src/ai/mod.rs, src/ai/ast.rs and src/ai/optimizer.rs: the analysis of the graph before a build. The
-- file system is what it answers, the three regular expressions are what they capture, and `iter` is
-- the order in which a hash set gives its elements. Paths end in a name.
pub mod Keeps
use memo_build.Prelude.{
  ℕ, ◌+◌, Bool, true, false, not, ◌&&◌, ◌||◌, ◌==◌, Option, none, some, List, [], ◌∷◌, ◌++◌, map,
  if◌then◌else◌, filter, modify, Text, codes, text_eq, contains_str, is_prefix, join,
}
use memo_build.Graph.{NodeKind, Node, NodeMetadata, BuildGraph}

-- The text in front of the last occurrence of a code and the text behind it.
unfoldable pub rsplit : ℕ → Text → Option (Text × Text)
rsplit c [] = none
rsplit c (d ∷ s) = elim (rsplit c s) [
  | none ↦ if c == d then some ([], s) else none
  | some (before, after) ↦ some (d ∷ before, after)
]

-- `Path::file_name` and `Path::parent` of a path that ends in a name.
unfoldable pub file_name : Text → Text
unfolding rsplit
file_name path = elim (rsplit b'/' path) [ none ↦ path | some (dir, name) ↦ name ]

unfoldable pub parent : Text → Text
unfolding rsplit
parent path = elim (rsplit b'/' path) [
  | none ↦ []
  | some ([], name) ↦ b'/' ∷ []
  | some (c ∷ dir, name) ↦ c ∷ dir
]

-- The stem and the extension of a file name; a dot in front belongs to the stem.
unfoldable pub split_extension : Text → Option (Text × Text)
unfolding rsplit
split_extension name = elim (rsplit b'.' name) [
  | none ↦ none
  | some ([], after) ↦ none
  | some (c ∷ before, after) ↦ some (c ∷ before, after)
]

abbrev second_of : Option (Text × Text) → Option Text
second_of none = none
second_of (some (stem, extension)) = some extension

abbrev pub extension : Text → Option Text
extension path = second_of (split_extension (file_name path))

abbrev stem_or : Text → Option (Text × Text) → Text
stem_or name none = name
stem_or name (some (stem, extension)) = stem

abbrev pub with_extension : Text → Text → Text
with_extension path new =
    let name = file_name path in
    join (parent path) (stem_or name (split_extension name) ++ b'.' ∷ new)

pub record Files : Type 0 where
  pub exists : Text → Bool
  pub is_file : Text → Bool
  -- `read_to_string(path).unwrap_or_default()`
  pub read : Text → Text
  pub imports : Text → List Text
  pub requires : Text → List Text
  pub modules : Text → List Text
  pub iter : List Text → List Text

abbrev pub is_script : Text → Bool
is_script ext =
    text_eq ext (codes "js")
    || text_eq ext (codes "ts")
    || text_eq ext (codes "jsx")
    || text_eq ext (codes "tsx")

module _ (files : Files) where
  -- The path of an import, with an extension where there is such a file.
  unfoldable pub resolve_import : Text → Text → Text
  resolve_import path d =
      let p = join (parent path) d in
      if files.exists p
      then p
      else if files.exists (with_extension p (codes "js"))
      then with_extension p (codes "js")
      else if files.exists (with_extension p (codes "ts"))
      then with_extension p (codes "ts")
      else p

  unfoldable pub find_js_dependencies : Text → List Text
  unfolding resolve_import
  find_js_dependencies path =
      let content = files.read path in
      let deps = files.iter (files.imports content ++ files.requires content) in
      map (resolve_import path) (filter (is_prefix (codes ".")) deps)

  -- The file of a module.
  unfoldable pub module_path : Text → Text → Text
  module_path path name =
      let p = join (parent path) (name ++ codes ".rs") in
      if files.exists p then p else join (join (parent path) name) (codes "mod.rs")

  unfoldable pub find_rust_dependencies : Text → List Text
  unfolding module_path
  find_rust_dependencies path =
      files.iter (filter files.exists (map (module_path path) (files.modules (files.read path))))

  unfoldable pub find_dependencies : Text → Option Text → List Text
  find_dependencies path none = []
  find_dependencies path (some ext) =
      if is_script ext
      then find_js_dependencies path
      else if text_eq ext (codes "rs")
      then find_rust_dependencies path
      else []

  unfoldable pub node_dependencies : Text → NodeKind → List Text
  unfolding find_dependencies
  node_dependencies context_dir (NodeKind.copy src dst) =
      let full_src = join context_dir src in
      if files.exists full_src && files.is_file full_src
      then find_dependencies full_src (extension full_src)
      else []
  node_dependencies context_dir _ = []

  -- The first loop, which leaves out nodes without a dependency.
  unfoldable pub collect_extra : Text → List Node → List (ℕ × List Text)
  unfolding node_dependencies
  collect_extra context_dir [] = []
  collect_extra context_dir (node ∷ nodes) = elim (node_dependencies context_dir node.kind) [
    | [] ↦ collect_extra context_dir nodes
    | dep ∷ deps ↦ (node.id, dep ∷ deps) ∷ collect_extra context_dir nodes
  ]

-- The loop over the dependencies of one node.
unfoldable pub add_extra : List Text → Node → Node
add_extra [] node = node
add_extra (dep ∷ deps) node = add_extra deps (record node {
  metadata = record node.metadata {
    tags = node.metadata.tags ++ (codes "deps:" ++ dep) ∷ [];
    extra_source_paths = node.metadata.extra_source_paths ++ dep ∷ [];
  };
})

unfoldable pub apply_extra : List (ℕ × List Text) → List Node → List Node
unfolding add_extra
apply_extra [] nodes = nodes
apply_extra ((id, deps) ∷ rest) nodes = apply_extra rest (modify nodes id (add_extra deps))

unfoldable pub analyze_dependencies : Files → Text → BuildGraph → BuildGraph
unfolding collect_extra apply_extra
analyze_dependencies files context_dir graph = record graph {
  nodes = apply_extra (collect_extra files context_dir graph.nodes) graph.nodes;
}

unfoldable pub predict_execution_time : Text → ℕ
predict_execution_time content =
    if contains_str content (codes "npm install") || contains_str content (codes "cargo build")
    then 60000
    else if contains_str content (codes "test")
    then 30000
    else 5000

unfoldable pub prioritize : Node → NodeKind → Node
prioritize node NodeKind.run =
    if contains_str node.content (codes "test") || contains_str node.content (codes "build")
    then record node { metadata = record node.metadata { priority = 10; parallelizable = true } }
    else node
prioritize node _ = node

unfoldable pub optimize_node : Node → Node
unfolding prioritize predict_execution_time
optimize_node node =
    let n = prioritize node node.kind in
    record n {
      metadata = record n.metadata { execution_time_ms = some (predict_execution_time n.content) };
    }

unfoldable pub optimize_graph : BuildGraph → BuildGraph
unfolding optimize_node
optimize_graph graph = record graph { nodes = map optimize_node graph.nodes }

-- The advice for CI, the last step, only prints.
unfoldable pub analyze : Files → Text → BuildGraph → BuildGraph
analyze files context_dir graph = optimize_graph (analyze_dependencies files context_dir graph)
