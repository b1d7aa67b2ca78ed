-- ===== src/Tests/Builds.antt =====
-- Builds of the sample graph: services that never fail and always miss.
use memo_build.Prelude.{
  contains_str, ℕ, suc, ◌≡◌, refl, ap, ◌∙◌, true, false, none, some, [], ◌∷◌, codes,
}
use memo_build.Prelude.Results.{ok}
use memo_build.Executor.Interface.{SandboxEnv, Services}
use memo_build.Executor.{
  ExecutionStats, Options, execute, execute_groups, execute_levels, execute_level,
  execute_parallel_nodes, execute_sequential_nodes, execute_one, execute_entry, record_step,
  record_result, execute_node_logic, build_node, is_runnable, run_sandboxed, snapshot, join_all,
  apply_results, run_futures,
}
use memo_build.Executor.Totals.{IsComplete, execute-IsComplete}
use memo_build.Docker.Dag.{
  build_graph_from_instructions, build_from, node_of, parts_of, run_parts, from_parts, copy_parts,
  cmd_parts,
}
use memo_build.Tests.Graphs.{levels-sample}
use memo_build.Tests.Samples.{sample}

empty_env : SandboxEnv
empty_env = record { workspace_dir = []; env_vars = [] }

-- The state counts the puts.
abbrev services : Services ℕ
services = record {
  get_artifact = λ key s. (ok none, s);
  put_artifact = λ key bytes s. (ok tt, suc s);
  prepare = λ node s. (ok (record { workspace_dir = codes "/tmp"; env_vars = [] }), s);
  execute = λ env node s. (ok (record { exit_code = 0; stdout = codes "out"; stderr = [] }), s);
  cleanup = λ env s. (ok tt, s);
  remote_executor = none;
  now = λ s. s;
  elapsed_ms = λ s. 1;
}

abbrev wet : Options
wet = record { reproducible = false; dry_run = false }

abbrev dry : Options
dry = record { reproducible = true; dry_run = true }

abbrev wet_stats : ExecutionStats
wet_stats = record {
  total_nodes = 4;
  executed_nodes = 4;
  cache_hits = 0;
  cache_misses = 4;
  parallel_levels = 2;
  total_execution_time_ms = 1;
}

sample_groups :
    (execute_groups services wet (some ((0 ∷ []) ∷ (1 ∷ 2 ∷ 3 ∷ []) ∷ [])) sample 0).0
    ≡ ok wet_stats
unfolding execute_groups execute_levels execute_level execute_parallel_nodes
    execute_sequential_nodes execute_one execute_entry record_step record_result execute_node_logic
    build_node is_runnable run_sandboxed snapshot join_all apply_results run_futures
    build_graph_from_instructions build_from node_of parts_of from_parts copy_parts run_parts
    contains_str cmd_parts
sample_groups = refl

sample_stats : (execute services wet sample 0).0 ≡ ok wet_stats
unfolding execute
sample_stats = ap (λ o. (execute_groups services wet o sample 0).0) levels-sample ∙ sample_groups

execute-IsComplete_example : IsComplete wet sample wet_stats (execute services wet sample 0).1
execute-IsComplete_example = execute-IsComplete services wet sample 0 wet_stats sample_stats
