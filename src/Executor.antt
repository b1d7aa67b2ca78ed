-- ===== src/Executor.antt =====
-- src/executor.rs, `IncrementalExecutor`. The futures of a level are run one after the other, in the
-- order in which `join_all` starts them. The observer, the progress bar and the printing are left out.
pub mod Interface
pub mod Counts
pub mod Stock
pub mod Keeping
pub mod Rebuild
pub mod Totals
pub mod Returns
use memo_build.Prelude.{
  ℕ, zero, suc, ◌+◌, Bool, true, false, not, ◌==◌, Option, none, some, List, [], ◌∷◌, if◌then◌else◌,
  length, get_elem?, modify, filter, Text, codes,
}
use memo_build.Prelude.Results.{
  Error, Result, ok, err, execution_failed, panicked, Action, and_then, ◌>>=◌, ◌>>◌, pure, throw,
  ignore,
}
use memo_build.Graph.{NodeKind, Node, NodeMetadata, BuildGraph}
use memo_build.Graph.Levels.{levels}
use memo_build.Executor.Interface.{ActionRequest, ActionResult, Services}

pub record ExecutionStats : Type 0 where
  pub total_nodes : ℕ
  pub executed_nodes : ℕ
  pub cache_hits : ℕ
  pub cache_misses : ℕ
  pub parallel_levels : ℕ
  pub total_execution_time_ms : ℕ

pub record Options : Type 0 where
  pub reproducible : Bool
  pub dry_run : Bool

-- The graph that is built, the statistics, and the state of the services.
pub record Build (S : Type 0) : Type 0 where
  pub nodes : List Node
  pub stats : ExecutionStats
  pub outside : S

unfoldable pub is_runnable : NodeKind → Bool
is_runnable NodeKind.run = true
is_runnable (NodeKind.run_extend command parallelizable) = true
is_runnable (NodeKind.custom_hook name params) = true
is_runnable (NodeKind.git url target) = true
is_runnable _ = false

abbrev manifest_or : Option Text → Text → Text
manifest_or none hash = hash
manifest_or (some manifest) hash = manifest

abbrev pub default_remote_execution_timeout_secs : ℕ
default_remote_execution_timeout_secs = 600

unfoldable pub action_of : Node → ActionRequest
action_of node = record {
  command = codes "/bin/sh" ∷ codes "-c" ∷ node.content ∷ [];
  env = node.env;
  input_root_digest = record {
    hash = manifest_or node.metadata.input_manifest_hash node.hash;
    size_bytes = 0;
  };
  timeout_secs = default_remote_execution_timeout_secs;
  platform_properties = [];
  output_files = [];
  output_directories = [];
}

-- `normalize_artifact` of src/reproducible/normalize.rs returns its argument.
unfoldable pub normalize_artifact {ℓ} : {S : Type ℓ} → Text → Action S Text
normalize_artifact bytes = pure bytes

module _ {S : Type 0} (services : Services S) where
  -- The cleanup is not reached if a step before it fails.
  unfoldable pub run_sandboxed : Node → Action S Text
  run_sandboxed node = do
    env ← services.prepare node
    result ← services.execute env node
    if result.exit_code == 0
        then (services.cleanup env >> pure result.stdout)
        else throw execution_failed

  unfoldable pub run_remote : (ActionRequest → Action S ActionResult) → Node → Action S Text
  unfolding action_of
  run_remote remote node = do
    result ← remote (action_of node)
    if result.exit_code == 0 then pure result.stdout_raw else throw execution_failed

  abbrev normalize : Options → Text → Action S Text
  normalize options artifact =
      if options.reproducible then normalize_artifact artifact else pure artifact

  abbrev run_node : Node → Action S Text
  run_node node =
      if is_runnable node.kind
      then elim services.remote_executor [
        | none ↦ run_sandboxed node
        | some remote ↦ run_remote remote node
      ]
      else pure []

  -- What the node is after a build, as (dirty, cache_hit). An error of the final put is dropped.
  unfoldable pub build_node : Options → Node → Action S (Bool × Bool)
  unfolding is_runnable run_sandboxed run_remote
  build_node options node = do
    artifact ← run_node node
    normalized ← normalize options artifact
    ignore (services.put_artifact node.hash normalized)
    pure (false, false)

  -- Only a find in the cache is a hit; an error of the cache is reported and counts as a miss.
  abbrev pub is_hit : Result (Option Text) → Bool
  is_hit (ok none) = false
  is_hit (ok (some bytes)) = true
  is_hit (err e) = false

  unfoldable pub execute_node_logic : Options → Node → Action S (Bool × Bool)
  unfolding build_node
  execute_node_logic options node s =
      let (cached, s') = services.get_artifact node.hash s in
      if is_hit cached
      then (ok (false, true), s')
      else if options.dry_run
      then (ok (node.dirty, false), s')
      else build_node options node s'

-- The entry of a node after its run.
abbrev pub finish_node : ℕ → ℕ → Bool × Bool → Node → Node
finish_node now elapsed (dirty, cache_hit) node = record node {
  dirty = dirty;
  cache_hit = cache_hit;
  metadata = record node.metadata { last_executed = some now; execution_time_ms = some elapsed };
}

abbrev pub count_result : Bool → ExecutionStats → ExecutionStats
count_result cache_hit stats =
    if cache_hit then record stats { cache_hits = stats.cache_hits + 1 } else record stats {
      cache_misses = stats.cache_misses + 1;
      executed_nodes = stats.executed_nodes + 1;
    }

module _ {S : Type 0} where
  -- The graph and the statistics after the result of one node.
  unfoldable pub record_result : ℕ → ℕ → ℕ → Bool × Bool → Build S → Build S
  record_result id now elapsed (dirty, cache_hit) b = record b {
    nodes = modify b.nodes id (finish_node now elapsed (dirty, cache_hit));
    stats = count_result cache_hit b.stats;
  }

  abbrev pub outside_step : {A : Type 0} → Action S A → Action (Build S) A
  outside_step m b = let (r, s) = m b.outside in (r, record b { outside = s })

abbrev pub fresh_stats : ℕ → ℕ → ExecutionStats
fresh_stats total levels = record {
  total_nodes = total;
  executed_nodes = 0;
  cache_hits = 0;
  cache_misses = 0;
  parallel_levels = levels;
  total_execution_time_ms = 0;
}

abbrev pub cons_entry : ℕ → Option Node → Option (List (ℕ × Node)) → Option (List (ℕ × Node))
cons_entry id none rest = none
cons_entry id (some node) none = none
cons_entry id (some node) (some rest) = some ((id, node) ∷ rest)

-- The nodes of a group as they are before any of its futures runs.
unfoldable pub snapshot : List Node → List ℕ → Option (List (ℕ × Node))
snapshot nodes [] = some []
snapshot nodes (id ∷ ids) = cons_entry id (get_elem? nodes id) (snapshot nodes ids)

module _ {S : Type 0} (services : Services S) (options : Options) where
  -- `join_all`: every future is run to its end, whatever the others return.
  unfoldable pub join_all : List (ℕ × Node) → S → List (ℕ × Result (Bool × Bool) × ℕ) × S
  unfolding execute_node_logic
  join_all [] s = ([], s)
  join_all ((id, node) ∷ rest) s =
      let (result, s') = execute_node_logic services options node s in
      let (results, s'') = join_all rest s' in ((id, result, services.elapsed_ms s') ∷ results, s'')

  -- The results in order; the first error ends the loop.
  unfoldable pub apply_results : List (ℕ × Result (Bool × Bool) × ℕ) → Action (Build S) (Unit {0})
  unfolding record_result
  apply_results [] b = (ok tt, b)
  apply_results ((id, ok r, elapsed) ∷ rest) b =
      apply_results rest (record_result id (services.now b.outside) elapsed r b)
  apply_results ((id, err e, elapsed) ∷ rest) b = (err e, b)

  unfoldable pub run_futures : Option (List (ℕ × Node)) → Action (Build S) (Unit {0})
  unfolding join_all apply_results
  run_futures none b = (err panicked, b)
  run_futures (some futures) b =
      let (results, s) = join_all futures b.outside in
      apply_results results (record b { outside = s })

  unfoldable pub execute_parallel_nodes : List ℕ → Action (Build S) (Unit {0})
  unfolding snapshot run_futures
  execute_parallel_nodes ids b = run_futures (snapshot b.nodes ids) b

  -- `result?`, and what follows it in the sequential loop.
  unfoldable pub record_step : ℕ → Result (Bool × Bool) → Action (Build S) (Unit {0})
  unfolding record_result
  record_step id (err e) b = (err e, b)
  record_step id (ok r) b =
      (ok tt, record_result id (services.now b.outside) (services.elapsed_ms b.outside) r b)

  unfoldable pub execute_entry : ℕ → Option Node → Action (Build S) (Unit {0})
  unfolding execute_node_logic record_step
  execute_entry id none b = (err panicked, b)
  execute_entry id (some node) b =
      let (result, b') = outside_step (execute_node_logic services options node) b in
      record_step id result b'

  -- One round of the sequential loop.
  unfoldable pub execute_one : ℕ → Action (Build S) (Unit {0})
  unfolding execute_entry
  execute_one id b = execute_entry id (get_elem? b.nodes id) b

  unfoldable pub execute_sequential_nodes : List ℕ → Action (Build S) (Unit {0})
  unfolding execute_one
  execute_sequential_nodes [] = pure tt
  execute_sequential_nodes (id ∷ ids) = do execute_one id; execute_sequential_nodes ids

  abbrev is_parallel_entry : Option Node → Bool
  is_parallel_entry none = false
  is_parallel_entry (some node) = node.metadata.parallelizable

  -- The predicate of the partition of a level.
  abbrev pub is_parallel : List Node → ℕ → Bool
  is_parallel nodes id = is_parallel_entry (get_elem? nodes id)

  -- One level. The guards against empty groups change nothing, since an empty group does nothing.
  unfoldable pub execute_level : List ℕ → Action (Build S) (Unit {0})
  unfolding execute_parallel_nodes execute_sequential_nodes
  execute_level level b =
      let parallel = filter (is_parallel b.nodes) level in
      let sequential = filter (λ id. not (is_parallel b.nodes id)) level in
      (execute_parallel_nodes parallel >> execute_sequential_nodes sequential) b

  unfoldable pub execute_levels : List (List ℕ) → Action (Build S) (Unit {0})
  unfolding execute_level
  execute_levels [] = pure tt
  execute_levels (level ∷ rest) = do execute_level level; execute_levels rest

  abbrev pub set_time : Action (Build S) ExecutionStats
  set_time b =
      let stats = record b.stats { total_execution_time_ms = services.elapsed_ms b.outside } in
      (ok stats, record b { stats = stats })

  unfoldable pub execute_groups :
      Option (List (List ℕ)) → BuildGraph → S → Result ExecutionStats × Build S
  unfolding execute_levels
  execute_groups none graph s =
      (err panicked, record { nodes = graph.nodes; stats = fresh_stats 0 0; outside = s })
  execute_groups (some groups) graph s = (execute_levels groups >>= λ _. set_time) (record {
    nodes = graph.nodes;
    stats = fresh_stats (length graph.nodes) (length groups);
    outside = s;
  })

  unfoldable pub execute : BuildGraph → S → Result ExecutionStats × Build S
  unfolding execute_groups
  execute graph s = execute_groups (levels graph) graph s
