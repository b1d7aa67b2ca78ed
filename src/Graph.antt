-- ===== src/Graph.antt =====
-- src/graph.rs: the nodes of the build graph. `Graph/Key` has their keys, `Graph/Topo` the depth-first
-- order and `Graph/Levels` the grouping into levels. A path is the text that it is written as.
pub mod Topo
pub mod Levels
pub mod Key
use memo_build.Prelude.{
  ℕ, Bool, Option, none, some, List, [], ◌∷◌, Text, length, get_elem?, if◌then◌else◌, false,
}

pub data NodeKind : Type 0 where
  from_ run env workdir cmd other : NodeKind
  copy : (src dst : Text) → NodeKind
  git : (url target : Text) → NodeKind
  run_extend : (command : Text) (parallelizable : Bool) → NodeKind
  copy_extend : (src dst : Text) (tags : List Text) → NodeKind
  custom_hook : (hook_name : Text) (params : List Text) → NodeKind

-- Times are seconds since the epoch; a duration is in milliseconds.
pub record NodeMetadata : Type 0 where
  pub last_executed : Option ℕ
  pub execution_time_ms : Option ℕ
  pub parallelizable : Bool
  pub priority : ℕ
  pub tags : List Text
  pub source_content_hash : Option Text
  pub input_manifest_hash : Option Text
  pub output_manifest_hash : Option Text
  pub extra_source_paths : List Text

-- `NodeMetadata::default()`
abbrev pub default_metadata : NodeMetadata
default_metadata = record {
  last_executed = none;
  execution_time_ms = none;
  parallelizable = false;
  priority = 0;
  tags = [];
  source_content_hash = none;
  input_manifest_hash = none;
  output_manifest_hash = none;
  extra_source_paths = [];
}

-- `env` is a hash map: its entries in the order in which it iterates.
pub record Node : Type 0 where
  pub id : ℕ
  pub name : Text
  pub content : Text
  pub kind : NodeKind
  pub hash : Text
  pub dirty : Bool
  pub deps : List ℕ
  pub source_path : Option Text
  pub env : List (Text × Text)
  pub cache_hit : Bool
  pub metadata : NodeMetadata

pub record BuildGraph : Type 0 where
  pub nodes : List Node

abbrev deps_of_option : Option Node → List ℕ
deps_of_option none = []
deps_of_option (some node) = node.deps

-- The dependencies of the node at an index; none at an index out of range.
abbrev pub deps_of : List Node → ℕ → List ℕ
deps_of nodes i = deps_of_option (get_elem? nodes i)
