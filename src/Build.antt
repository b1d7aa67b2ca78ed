-- ===== src/Build.antt =====
-- src/main.rs, `run_build`, up to the end of the executor's run, over the hybrid cache. The tasks that
-- it spawns run to their end where they are spawned. Reading the Dockerfile, the reports, the export of
-- the image and what follows it are left out.
pub mod Plans
pub mod Again
pub mod Explain
use memo_build.Prelude.{ℕ, Bool, Option, none, some, List, [], ◌∷◌, map, filter, Text}
use memo_build.Prelude.Results.{Result, ok, err, Action, ◌>>=◌, ◌>>◌, pure, ignore}
use memo_build.Graph.{Node, NodeMetadata, BuildGraph}
use memo_build.Core.{detect_changes, propagate_dirty, compute_composite_hashes, propagate_manifests}
use memo_build.Docker.Instructions.{Instruction}
use memo_build.Docker.Parser.{parse_dockerfile}
use memo_build.Docker.Dag.{build_graph_from_instructions}
use memo_build.Ai.{Files, analyze}
use memo_build.Cache.Local.{Disk}
use memo_build.Cache.Remote.{RemoteCache}
use memo_build.Cache.Hybrid
use memo_build.Cache.Hybrid.{HybridState, prefetch_artifacts}
use memo_build.Sandbox
use memo_build.Sandbox.{Machine}
use memo_build.Executor.Interface.{ActionRequest, ActionResult, Services}
use memo_build.Executor.{ExecutionStats, Options, Build, execute}

-- The remote side of the cache that a build makes: it has none.
abbrev pub create_cache : {R : Type 0} → Option (RemoteCache R)
create_cache = none

-- What the build finds around it: the hash function, the debug texts, the order of hash maps, the
-- files, the JSON of a manifest, the time, the cache's disk, the machine and the
-- scheduler of remote executions.
pub record Context (R W : Type 0) : Type 0 where
  pub blake3_hex : Text → Text
  pub debug_instruction : Instruction → Text
  pub debug_texts : List Text → Text
  pub iter : List (Text × ℕ) → List (Text × ℕ)
  pub iter_manifests : List (Text × NodeMetadata) → List (Text × NodeMetadata)
  pub files : Files
  pub manifest_json : NodeMetadata → Text
  pub time : ℕ
  pub disk : Disk
  pub machine : Machine W
  pub remote_executor : Option (ActionRequest → Action W ActionResult)
  pub now : W → ℕ
  pub elapsed_ms : W → ℕ

module _ {R W : Type 0} where
  -- A step of the cache, or of all the rest.
  abbrev pub on_cache : {A : Type 0} → Action (HybridState R) A → Action (HybridState R × W) A
  on_cache m (c, w) = let (r, c') = m c in (r, (c', w))

  abbrev pub on_machine : {A : Type 0} → Action W A → Action (HybridState R × W) A
  on_machine m (c, w) = let (r, w') = m w in (r, (c, w'))

  abbrev pub lift_executor :
      Option (ActionRequest → Action W ActionResult)
      → Option (ActionRequest → Action (HybridState R × W) ActionResult)
  lift_executor none = none
  lift_executor (some remote) = some (λ action. on_machine (remote action))

module _ {R W : Type 0} (ctx : Context R W) (context_dir : Text) where
  -- What the executor is configured with.
  abbrev pub services : Services (HybridState R × W)
  services = record {
    get_artifact =
        λ key. on_cache (Hybrid.get_artifact ctx.blake3_hex ctx.disk ctx.time create_cache key);
    put_artifact = λ key bytes.
        on_cache (Hybrid.put_artifact ctx.blake3_hex ctx.disk ctx.time create_cache key bytes);
    prepare = λ node. on_machine (Sandbox.prepare context_dir node);
    execute = λ env node. on_machine (Sandbox.execute ctx.machine env node);
    cleanup = λ env. on_machine (Sandbox.cleanup env);
    remote_executor = lift_executor ctx.remote_executor;
    now = λ s. ctx.now s.1;
    elapsed_ms = λ s. ctx.elapsed_ms s.1;
  }

  unfoldable pub graph_of : Text → BuildGraph
  graph_of dockerfile =
      build_graph_from_instructions ctx.debug_instruction ctx.debug_texts ctx.iter context_dir
        (parse_dockerfile dockerfile)

  -- The graph with the nodes' hashes.
  unfoldable pub prepared_graph : Text → BuildGraph
  unfolding graph_of
  prepared_graph dockerfile =
      let graph = analyze ctx.files context_dir (graph_of dockerfile) in
      let changed = propagate_dirty (detect_changes graph) in
      compute_composite_hashes ctx.blake3_hex changed (tt {0})

  -- The steps in front of the cache: from the text of the Dockerfile to the graph and the manifests.
  unfoldable pub plan : Text → BuildGraph × List (Text × NodeMetadata)
  unfolding prepared_graph
  plan dockerfile = propagate_manifests (prepared_graph dockerfile)

  -- The loop that uploads the manifests if there is a remote cache.
  unfoldable pub upload_manifests :
      Option (RemoteCache R) → List (Text × NodeMetadata) → Action (HybridState R) (Unit {0})
  upload_manifests none manifests = pure tt
  upload_manifests (some remote) [] = pure tt
  upload_manifests (some remote) ((hash, manifest) ∷ rest) = do
    ignore (
        Hybrid.put_artifact ctx.blake3_hex ctx.disk ctx.time create_cache hash
          (ctx.manifest_json manifest))
    upload_manifests (some remote) rest

  abbrev pub dirty_hashes : BuildGraph → List Text
  dirty_hashes graph = map (λ (n : Node). n.hash) (filter (λ (n : Node). n.dirty) graph.nodes)

  -- The cache before the executor starts.
  unfoldable pub warm_up :
      BuildGraph → List (Text × NodeMetadata) → Action (HybridState R) (Unit {0})
  unfolding upload_manifests
  warm_up graph manifests = do
    upload_manifests create_cache (ctx.iter_manifests manifests)
    prefetch_artifacts ctx.blake3_hex ctx.disk ctx.time create_cache (dirty_hashes graph)

  unfoldable pub run_build :
      Options → Text → HybridState R × W → Result ExecutionStats × Build (HybridState R × W)
  unfolding plan warm_up
  run_build options dockerfile s =
      let (graph, manifests) = plan dockerfile in
      let (r, s') = on_cache (warm_up graph manifests) s in execute services options graph s'
