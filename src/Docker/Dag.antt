-- ===== src/Docker/Dag.antt =====
-- src/docker/dag.rs, `build_graph_from_instructions`. The texts of `{:?}` and the order in which the
-- hash map of copied sources is walked are parameters.
pub mod Deps
pub mod Backward
pub mod Pipeline
use memo_build.Prelude.{
  ℕ, zero, suc, ◌+◌, ◌-◌, Bool, true, false, not, ◌&&◌, ◌||◌, Option, none, some, List, [], ◌∷◌,
  ◌++◌, if◌then◌else◌, ltb, contains, Text, codes, text_eq, contains_str, join, insert,
}
use memo_build.Graph.{NodeKind, Node, NodeMetadata, BuildGraph, default_metadata}
use memo_build.Docker.Instructions.{
  Instruction, from_, workdir, run, cmd, other, copy, env, git, run_extend, copy_extend, hook,
}

-- What an arm of the match decides about its node.
pub record Parts : Type 0 where
  pub content : Text
  pub source_path : Option Text
  pub kind : NodeKind
  pub deps : List ℕ
  pub metadata : NodeMetadata
  pub env_entry : List (Text × Text)

-- `if i > 0 { vec![i - 1] } else { vec![] }`
abbrev pub previous : ℕ → List ℕ
previous i = if ltb 0 i then (i - 1) ∷ [] else []

abbrev pub tagged : Bool → List Text → NodeMetadata
tagged parallelizable tags = record default_metadata {
  parallelizable = parallelizable;
  tags = tags;
}

abbrev source_of : Text → Text → Text
source_of project_root src = if text_eq src (codes ".") then project_root else join project_root src

abbrev pub no_entry : List (Text × Text)
no_entry = []

unfoldable pub from_parts : Text → Parts
from_parts img = record {
  content = codes "FROM " ++ img;
  source_path = none;
  kind = NodeKind.from_;
  deps = [];
  metadata = default_metadata;
  env_entry = [];
}

unfoldable pub workdir_parts : ℕ → Text → Parts
workdir_parts i dir = record {
  content = codes "WORKDIR " ++ dir;
  source_path = none;
  kind = NodeKind.workdir;
  deps = previous i;
  metadata = tagged true [];
  env_entry = [];
}

unfoldable pub copy_parts : Text → ℕ → Text → Text → Parts
copy_parts project_root i src dst = record {
  content = codes "COPY " ++ src ++ codes " " ++ dst;
  source_path = some (source_of project_root src);
  kind = NodeKind.copy src dst;
  deps = previous i;
  metadata = tagged true (codes "copy" ∷ []);
  env_entry = [];
}

-- Whether a command mentions a copied source.
abbrev pub mentions : Text → Text → Bool
mentions command src = contains_str command src || contains_str command (codes "./" ++ src)

-- The loop over the copied sources.
unfoldable pub run_deps : Text → List ℕ → List (Text × ℕ) → List ℕ
run_deps command deps [] = deps
run_deps command deps ((src, idx) ∷ rest) =
    run_deps command
      (if mentions command src && not (contains deps idx) then deps ++ idx ∷ [] else deps) rest

unfoldable pub is_parallelizable : Text → Bool
is_parallelizable command =
    not (contains_str command (codes "rm"))
    && not (contains_str command (codes "mv"))
    && not (contains_str command (codes "chmod"))

unfoldable pub run_parts : ℕ → Text → List (Text × ℕ) → Parts
unfolding run_deps is_parallelizable
run_parts i command sources = record {
  content = command;
  source_path = none;
  kind = NodeKind.run;
  deps = run_deps command (previous i) sources;
  metadata = tagged (is_parallelizable command) (codes "run" ∷ []);
  env_entry = [];
}

unfoldable pub env_parts : ℕ → Text → Text → Parts
env_parts i key value = record {
  content = codes "ENV " ++ key ++ codes "=" ++ value;
  source_path = none;
  kind = NodeKind.env;
  deps = previous i;
  metadata = tagged true (codes "env" ∷ []);
  env_entry = (key, value) ∷ [];
}

unfoldable pub cmd_parts : ℕ → Text → Parts
cmd_parts i command = record {
  content = codes "CMD " ++ command;
  source_path = none;
  kind = NodeKind.cmd;
  deps = previous i;
  metadata = tagged true (codes "cmd" ∷ []);
  env_entry = [];
}

unfoldable pub git_parts : ℕ → Text → Text → Parts
git_parts i url target = record {
  content = codes "GIT " ++ url ++ codes " " ++ target;
  source_path = none;
  kind = NodeKind.git url target;
  deps = previous i;
  metadata = tagged true (codes "git" ∷ []);
  env_entry = [];
}

unfoldable pub run_extend_parts : ℕ → Text → Bool → Parts
run_extend_parts i command parallelizable = record {
  content = command;
  source_path = none;
  kind = NodeKind.run_extend command parallelizable;
  deps = previous i;
  metadata = tagged parallelizable (codes "extension" ∷ codes "run-extend" ∷ []);
  env_entry = [];
}

unfoldable pub copy_extend_parts : Text → ℕ → Text → Text → List Text → Parts
copy_extend_parts project_root i src dst tags = record {
  content = codes "COPY_EXTEND " ++ src ++ codes " -> " ++ dst;
  source_path = some (source_of project_root src);
  kind = NodeKind.copy_extend src dst tags;
  deps = previous i;
  metadata = tagged true (tags ++ codes "extension" ∷ []);
  env_entry = [];
}

unfoldable pub other_parts : ℕ → Text → Parts
other_parts i line = record {
  content = line;
  source_path = none;
  kind = NodeKind.other;
  deps = previous i;
  metadata = tagged false (codes "other" ∷ []);
  env_entry = [];
}

-- The variables of the function, before the loop and between its rounds.
pub record Builder : Type 0 where
  pub nodes : List Node
  pub copy_sources : List (Text × ℕ)
  pub env_vars : List (Text × Text)
  pub workdir : Option Text

abbrev pub start : Builder
start = record { nodes = []; copy_sources = []; env_vars = []; workdir = none }

-- What an instruction writes into the variables other than `nodes`.
unfoldable pub track : ℕ → Instruction → Builder → Builder
unfolding insert
track i (workdir dir) b = record b { workdir = some dir }
track i (copy src dst) b = record b { copy_sources = insert src i b.copy_sources }
track i (env key value) b = record b { env_vars = insert key value b.env_vars }
track i _ b = b

module _ (debug_instruction : Instruction → Text) (debug_texts : List Text → Text)
    (iter : List (Text × ℕ) → List (Text × ℕ)) (project_root : Text) where
  unfoldable pub hook_parts : ℕ → Text → List Text → Parts
  hook_parts i name params = record {
    content = codes "HOOK " ++ name ++ codes " " ++ debug_texts params;
    source_path = none;
    kind = NodeKind.custom_hook name params;
    deps = previous i;
    metadata = tagged false (codes "hook" ∷ []);
    env_entry = [];
  }

  unfoldable pub parts_of : ℕ → Instruction → List (Text × ℕ) → Parts
  parts_of i (from_ img) sources = from_parts img
  parts_of i (workdir dir) sources = workdir_parts i dir
  parts_of i (copy src dst) sources = copy_parts project_root i src dst
  parts_of i (run command) sources = run_parts i command (iter sources)
  parts_of i (env key value) sources = env_parts i key value
  parts_of i (cmd command) sources = cmd_parts i command
  parts_of i (git url target) sources = git_parts i url target
  parts_of i (run_extend command par) sources = run_extend_parts i command par
  parts_of i (copy_extend src dst tags) sources = copy_extend_parts project_root i src dst tags
  parts_of i (hook name params) sources = hook_parts i name params
  parts_of i (other line) sources = other_parts i line

  unfoldable pub node_of : ℕ → Instruction → List (Text × ℕ) → Node
  node_of i instr sources =
      let parts = parts_of i instr sources in
      record {
        id = i;
        name = debug_instruction instr;
        content = parts.content;
        kind = parts.kind;
        hash = [];
        dirty = false;
        deps = parts.deps;
        source_path = parts.source_path;
        env = parts.env_entry;
        cache_hit = false;
        metadata = parts.metadata;
      }

  -- The loop over the instructions from number `i` on.
  unfoldable pub build_from : ℕ → List Instruction → Builder → Builder
  build_from i [] b = b
  build_from i (instr ∷ rest) b =
      let node = node_of i instr b.copy_sources in
      build_from (i + 1) rest (record (track i instr b) { nodes = b.nodes ++ node ∷ [] })

  unfoldable pub build_graph_from_instructions : List Instruction → BuildGraph
  build_graph_from_instructions instructions = record {
    nodes = (build_from 0 instructions start).nodes;
  }
