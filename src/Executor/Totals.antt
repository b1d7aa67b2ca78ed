-- ===== src/Executor/Totals.antt =====
-- A whole build, from the levels of the graph to the statistics.
use mathlib.Core.List.{flatten}
use memo_build.Prelude.{
  ℕ, ◌+◌, ◌≡◌, sym, true, false, not, ◌&&◌, some, List, arith, ltb, subst, length, contains,
}
use memo_build.Prelude.Results.{ok, >>=-eq-ok}
use memo_build.Graph.{BuildGraph}
use memo_build.Graph.Levels.Whole.{levels-whole}
use memo_build.Core.{dirty_at}
use memo_build.Core.Dirty.{dirty_at-in_range}
use memo_build.Executor.Interface.{Services}
use memo_build.Executor.{
  ExecutionStats, Options, Build, execute_levels, execute_groups, execute, set_time, fresh_stats,
}
use memo_build.Executor.Counts.{execute_levels-Advance}

-- The statistics `stats` and the final state `b` of a build of `graph`.
pub record IsComplete {S : Type 0} (options : Options) (graph : BuildGraph) (stats : ExecutionStats)
    (b : Build S) : Type 0 where
  pub total : stats.total_nodes ≡ length graph.nodes
  pub counted : stats.cache_hits + stats.cache_misses ≡ length graph.nodes
  pub executed : stats.executed_nodes ≡ stats.cache_misses
  pub size : length b.nodes ≡ length graph.nodes
  -- No node is dirty after a build that was no dry run.
  pub clean : (j : ℕ) → (not options.dry_run && dirty_at b.nodes j) ≡ false

module _ {S : Type 0} (services : Services S) (options : Options) (graph : BuildGraph) (s : S) where
  execute_groups-IsComplete :
      (groups : List (List ℕ)) (stats : ExecutionStats)
      → length (flatten groups) ≡ length graph.nodes
      → ((x : ℕ) → contains (flatten groups) x ≡ ltb x (length graph.nodes))
      → (execute_groups services options (some groups) graph s).0 ≡ ok stats
      → IsComplete options graph stats (execute_groups services options (some groups) graph s).1
  unfolding execute_groups
  execute_groups-IsComplete groups stats size mem e =
      let start : Build S = record {
        nodes = graph.nodes;
        stats = fresh_stats (length graph.nodes) (length groups);
        outside = s;
      } in
      let (_, first, last) =
        >>=-eq-ok (execute_levels services options groups) (λ _. set_time services options) start
          e in
      let a = execute_levels-Advance services options groups start first in
      let b = (execute_levels services options groups start).1 in
      rw first (record {
        total = ground (arith, a.total);
        counted = ground (arith, a.counted, size);
        executed = ground (arith, a.executed);
        size = a.size;
        clean = λ j. ground (
          arith,
          mem j,
          λ (c : not options.dry_run ≡ true). a.cleaned c j,
          a.size,
          dirty_at-in_range b.nodes j,
          dirty_at-in_range graph.nodes j,
        );
      })

  -- A build that succeeds has counted every node of the graph once, as a hit or as a miss, and has
  -- executed as many nodes as it missed; the graph has as many nodes as before; and unless it was a dry
  -- run no node is left dirty.
  pub execute-IsComplete :
      (stats : ExecutionStats)
      → (execute services options graph s).0 ≡ ok stats
      → IsComplete options graph stats (execute services options graph s).1
  unfolding execute
  execute-IsComplete =
      let (groups, returns, size, mem) = levels-whole graph in
      subst
        (λ o.
          (stats : ExecutionStats)
          → (execute_groups services options o graph s).0 ≡ ok stats
          → IsComplete options graph stats (execute_groups services options o graph s).1)
        (sym returns) (λ stats. execute_groups-IsComplete groups stats size mem)
