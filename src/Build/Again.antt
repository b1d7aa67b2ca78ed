-- ===== src/Build/Again.antt =====
-- Builds one after the other.
use memo_build.Prelude.{
  ◌≡◌, refl, subst, true, false, Option, none, some, List, [], ◌∷◌, map, contains_text, Text,
  some_inj,
}
use memo_build.Prelude.Results.{ok, Action}
use memo_build.Prelude.Keeps.{Keeps}
use memo_build.Graph.{NodeMetadata}
use memo_build.Cache.Remote.{RemoteCache}
use memo_build.Cache.Hybrid.{HybridState}
use memo_build.Cache.Hybrid.Holding.{
  Accepting, IsHeld, get_artifact-found, get_artifact-IsHeld, get_artifact-Keeps,
  put_artifact-IsHeld, put_artifact-Keeps,
}
use memo_build.Executor.Interface.{ActionRequest, ActionResult}
use memo_build.Executor.{ExecutionStats, Options}
use memo_build.Executor.Keeping.{Keeping}
use memo_build.Executor.Rebuild.{hashes, execute-Whole}
use memo_build.Build.Plans.{contents}
use memo_build.Build.{
  create_cache, Context, lift_executor, on_cache, services, graph_of, plan, upload_manifests,
  warm_up, run_build,
}

module _ {R W : Type 0} (ctx : Context R W) (context_dir : Text)
    (accepting : Accepting ctx.disk) where
  abbrev pub Kept : Text → HybridState R × W → Type 0
  Kept key s = IsHeld ctx.disk accepting ctx.blake3_hex ctx.time create_cache key s.0

  lift_executor-Keeps :
      (executor : Option (ActionRequest → Action W ActionResult))
      (remote : ActionRequest → Action (HybridState R × W) ActionResult) (action : ActionRequest)
      → lift_executor executor ≡ some remote
      → Keeps Kept (remote action)
  lift_executor-Keeps none remote action e = cc e
  lift_executor-Keeps (some r) remote action e =
      subst (λ f. Keeps Kept (f action)) (some_inj e) (λ k s held. held)

  -- The services that the executor is given keep what the cache is given.
  pub services-Keeping : Keeping Kept (services ctx context_dir)
  services-Keeping = record {
    found = λ k s held.
        get_artifact-found ctx.disk accepting ctx.blake3_hex ctx.time create_cache k s.0 held;
    get_holds = λ k bytes s e.
        get_artifact-IsHeld ctx.disk accepting ctx.blake3_hex ctx.time create_cache k bytes s.0 e;
    put_holds = λ k bytes s.
        put_artifact-IsHeld ctx.disk accepting ctx.blake3_hex ctx.time create_cache k bytes s.0;
    get_keeps = λ key k s held.
        get_artifact-Keeps ctx.disk accepting ctx.blake3_hex ctx.time create_cache key k s.0 held;
    put_keeps = λ key bytes k s held.
        put_artifact-Keeps ctx.disk accepting ctx.blake3_hex ctx.time create_cache key bytes k s.0
          held;
    prepare_keeps = λ node k s held. held;
    execute_keeps = λ env node k s held. held;
    cleanup_keeps = λ env k s held. held;
    remote_keeps = λ remote action e. lift_executor-Keeps ctx.remote_executor remote action e;
  }

  abbrev pub Cached : Text → HybridState R → Type 0
  Cached = IsHeld ctx.disk accepting ctx.blake3_hex ctx.time create_cache

  pub upload_manifests-Keeps :
      (to : Option (RemoteCache R)) (manifests : List (Text × NodeMetadata))
      → Keeps Cached (upload_manifests ctx context_dir to manifests)
  unfolding upload_manifests
  upload_manifests-Keeps none manifests = λ k s held. held
  upload_manifests-Keeps (some r) [] = λ k s held. held
  upload_manifests-Keeps (some r) ((hash, m) ∷ rest) = λ k s held.
      upload_manifests-Keeps (some r) rest k _ (
        put_artifact-Keeps ctx.disk accepting ctx.blake3_hex ctx.time create_cache hash
          (ctx.manifest_json m) k s held)

  pub upload_manifests-ok :
      (to : Option (RemoteCache R)) (manifests : List (Text × NodeMetadata)) (s : HybridState R)
      → (upload_manifests ctx context_dir to manifests s).0 ≡ ok tt
  unfolding upload_manifests
  upload_manifests-ok none manifests s = refl
  upload_manifests-ok (some r) [] s = refl
  upload_manifests-ok (some r) ((hash, m) ∷ rest) s = upload_manifests-ok (some r) rest _

  -- The state in which the executor starts.
  abbrev pub warmed : Text → HybridState R × W → HybridState R × W
  warmed dockerfile s =
      let (graph, manifests) = plan ctx context_dir dockerfile in
      (on_cache (warm_up ctx context_dir graph manifests) s).1

  module _ (options : Options) (real : options.dry_run ≡ false) where
    -- A build that succeeds leaves an artifact for the hash of each node.
    pub run_build-hashes :
        (dockerfile h : Text) (s : HybridState R × W) (stats : ExecutionStats)
        → (run_build ctx context_dir options dockerfile s).0 ≡ ok stats
        → contains_text (hashes (plan ctx context_dir dockerfile).0) h ≡ true
        → Kept h (run_build ctx context_dir options dockerfile s).1.outside
    unfolding run_build
    run_build-hashes dockerfile h s stats done =
        let graph = (plan ctx context_dir dockerfile).0 in
        let (stocked, _, _) =
          execute-Whole (services ctx context_dir) options services-Keeping real graph
            (warmed dockerfile s) stats done in
        stocked h

    -- What is held after one build when another one starts its executor.
    abbrev Left : Text → Text → HybridState R × W → Type 0
    Left first second s =
        (h : Text)
        → contains_text (map ctx.blake3_hex (contents (graph_of ctx context_dir first))) h ≡ true
        → Kept h (warmed second (run_build ctx context_dir options first s).1.outside)
