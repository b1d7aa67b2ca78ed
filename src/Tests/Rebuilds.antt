-- ===== src/Tests/Rebuilds.antt =====
-- A Dockerfile that is built, built again, and built after an edit, on a machine that runs everything
-- and writes nothing.
use memo_build.Prelude.{
  ℕ, suc, true, false, none, some, [], ◌∷◌, ◌++◌, codes, Text, insert, lookup, lines, trim,
  trim_start, trim_end, split_whitespace, contains_str,
}
use memo_build.Prelude.Results.{ok}
use memo_build.Graph.Levels.{levels, node_levels, group, assign_levels, max_dep_level}
use memo_build.Graph.Topo.{topological_order, visit_roots, dfs_topo, visit_deps}
use memo_build.Core.{
  detect_changes, has_dirty_dep, propagate_at, propagate_from, propagate_dirty,
  compute_composite_hashes, propagate_manifests,
}
use memo_build.Docker.Parser.{parse_dockerfile, parse_lines, parse_line, parse_keyword, arguments}
use memo_build.Docker.Dag.{
  build_graph_from_instructions, build_from, node_of, parts_of, run_parts, run_deps,
  is_parallelizable, from_parts, track,
}
use memo_build.Ai.{
  Files, analyze, optimize_graph, optimize_node, prioritize, predict_execution_time,
  analyze_dependencies, collect_extra, apply_extra, node_dependencies,
}
use memo_build.Cache.Local
use memo_build.Cache.Local.{LocalCache, Disk, get_data, read_artifact, save_index, exists}
use memo_build.Cache.Hybrid
use memo_build.Cache.Hybrid.{HybridState, prefetch_artifacts, prefetch, get_remote, put_remote}
use memo_build.Sandbox
use memo_build.Sandbox.{Machine, run_shell, execute_kind}
use memo_build.Executor.{
  ExecutionStats, Options, execute, execute_groups, execute_levels, execute_level,
  execute_parallel_nodes, execute_sequential_nodes, execute_one, execute_entry, record_step,
  record_result, execute_node_logic, build_node, is_runnable, run_sandboxed, snapshot, join_all,
  apply_results, run_futures,
}
use memo_build.Build.{prepared_graph, Context, graph_of, plan, upload_manifests, warm_up, run_build}
use memo_build.Tests.Samples.{no_debug, no_texts, in_order}

abbrev files : Files
files = record {
  exists = λ path. false;
  is_file = λ path. false;
  read = λ path. [];
  imports = λ content. [];
  requires = λ content. [];
  modules = λ content. [];
  iter = λ xs. xs;
}

abbrev disk : Disk
disk = record { readable = λ path. true; writable = λ path. true; index_writable = true }

abbrev machine : Machine ℕ
machine = record {
  shell = λ command vars dir w. (ok (some 0, codes "out", []), suc w);
  is_dir = λ path w. false;
  create_dir_all = λ path w. (ok tt, w);
  copy_file = λ src dst w. (ok tt, w);
}

abbrev context : Context (Unit {0}) ℕ
context = record {
  blake3_hex = λ bytes. bytes;
  debug_instruction = no_debug;
  debug_texts = no_texts;
  iter = in_order;
  iter_manifests = λ ms. ms;
  files = files;
  manifest_json = λ m. codes "manifest";
  time = 7;
  disk = disk;
  machine = machine;
  remote_executor = none;
  now = λ w. w;
  elapsed_ms = λ w. 1;
}

abbrev wet : Options
wet = record { reproducible = false; dry_run = false }

-- The counter of commands that were run.
abbrev fresh : HybridState (Unit {0}) × ℕ
fresh = (record { local_cache = record { store = []; files = []; index = [] }; shared = tt }, 0)

abbrev first : Text
first = codes "FROM a" ++ 10 ∷ codes "RUN b"

abbrev edited : Text
edited = codes "FROM a" ++ 10 ∷ codes "RUN c"

abbrev stats_of : ℕ → ℕ → ExecutionStats
stats_of executed hits = record {
  total_nodes = 2;
  executed_nodes = executed;
  cache_hits = hits;
  cache_misses = executed;
  parallel_levels = 2;
  total_execution_time_ms = 1;
}

planned : Unit {0}
unfolding plan prepared_graph graph_of parse_dockerfile parse_lines parse_line parse_keyword
    arguments lines trim trim_start trim_end split_whitespace build_graph_from_instructions
    build_from node_of parts_of run_parts from_parts run_deps is_parallelizable contains_str track
    analyze optimize_graph optimize_node prioritize predict_execution_time analyze_dependencies
    collect_extra apply_extra node_dependencies detect_changes has_dirty_dep propagate_at
    propagate_from propagate_dirty compute_composite_hashes propagate_manifests levels node_levels
    group assign_levels max_dep_level topological_order visit_roots dfs_topo visit_deps
planned = tt

ran : Unit {0}
unfolding run_build warm_up upload_manifests prefetch_artifacts prefetch execute execute_groups
    execute_levels execute_level execute_parallel_nodes execute_sequential_nodes execute_one
    execute_entry record_step record_result execute_node_logic build_node is_runnable run_sandboxed
    snapshot join_all apply_results run_futures Hybrid.get_artifact get_remote Hybrid.put_artifact
    put_remote Local.put get_data read_artifact save_index exists lookup insert Sandbox.prepare
    Sandbox.execute Sandbox.cleanup run_shell execute_kind
ran = tt

abbrev after_first : HybridState (Unit {0}) × ℕ
after_first = (run_build context (codes "/src") wet first fresh).1.outside
