-- ===== src/Executor/Keeping.antt =====
-- A cache that keeps what is put into it, and what a build leaves behind for the next one.
use memo_build.Prelude.{
  ◌≡◌, refl, Bool, true, false, not, ◌==◌, Option, none, some, arith, inl, inr, Bool-cases,
  if◌then◌else◌, Text,
}
use memo_build.Prelude.Keeps.{Keeps, >>=-Keeps, if-Keeps}
use memo_build.Prelude.Results.{Result, ok, err, Action, >>=-eq-ok}
use memo_build.Graph.{Node}
use memo_build.Executor.Interface.{SandboxEnv, ActionRequest, ActionResult, Services}
use memo_build.Executor.{
  Options, is_hit, is_runnable, run_sandboxed, run_remote, run_node, normalize, normalize_artifact,
  action_of, build_node, execute_node_logic,
}
use memo_build.Executor.Stock.{NodeLaws}

module _ {S : Type 0} (Held : Text → S → Type 0) where
  -- The cache holds what it was given and what it has found, gives what it holds, and no service
  -- makes it forget.
  pub record Keeping (services : Services S) : Type 0 where
    pub found :
        (k : Text) (s : S)
        → Held k s
        → (bytes : Text) × ((services.get_artifact k s).0 ≡ ok (some bytes))
    pub get_holds :
        (k bytes : Text) (s : S)
        → (services.get_artifact k s).0 ≡ ok (some bytes)
        → Held k (services.get_artifact k s).1
    pub put_holds : (k bytes : Text) (s : S) → Held k (services.put_artifact k bytes s).1
    pub get_keeps : (k : Text) → Keeps Held (services.get_artifact k)
    pub put_keeps : (k bytes : Text) → Keeps Held (services.put_artifact k bytes)
    pub prepare_keeps : (node : Node) → Keeps Held (services.prepare node)
    pub execute_keeps : (env : SandboxEnv) (node : Node) → Keeps Held (services.execute env node)
    pub cleanup_keeps : (env : SandboxEnv) → Keeps Held (services.cleanup env)
    pub remote_keeps :
        (remote : ActionRequest → Action S ActionResult) (action : ActionRequest)
        → services.remote_executor ≡ some remote
        → Keeps Held (remote action)

module _ {S : Type 0} {Held : Text → S → Type 0} (services : Services S) (options : Options)
    (keeping : Keeping Held services) where
  run_sandboxed-Keeps : (node : Node) → Keeps Held (run_sandboxed services node)
  unfolding run_sandboxed
  run_sandboxed-Keeps node =
      >>=-Keeps Held (services.prepare node) _ (keeping.prepare_keeps node) (λ env.
        >>=-Keeps Held (services.execute env node) _ (keeping.execute_keeps env node) (λ result.
          if-Keeps Held (result.exit_code == 0) _ _
            (>>=-Keeps Held (services.cleanup env) _ (keeping.cleanup_keeps env)
              (λ u k s held. held))
            (λ k s held. held)))

  run_remote-Keeps :
      (remote : ActionRequest → Action S ActionResult) (node : Node)
      → services.remote_executor ≡ some remote
      → Keeps Held (run_remote services remote node)
  unfolding run_remote
  run_remote-Keeps remote node known =
      >>=-Keeps Held (remote (action_of node)) _
        (keeping.remote_keeps remote (action_of node) known)
        (λ result. if-Keeps Held (result.exit_code == 0) _ _ (λ k s held. held) (λ k s held. held))

  on_executor-Keeps :
      (remote : Option (ActionRequest → Action S ActionResult)) (node : Node)
      → services.remote_executor ≡ remote
      → Keeps Held
          (elim remote [ none ↦ run_sandboxed services node | some r ↦ run_remote services r node ])
  on_executor-Keeps none node known = run_sandboxed-Keeps node
  on_executor-Keeps (some r) node known = run_remote-Keeps r node known

  run_node-Keeps : (node : Node) → Keeps Held (run_node services node)
  run_node-Keeps node =
      if-Keeps Held (is_runnable node.kind) _ _
        (on_executor-Keeps services.remote_executor node refl) (λ k s held. held)

  normalize-Keeps : (artifact : Text) → Keeps Held (normalize services options artifact)
  unfolding normalize_artifact
  normalize-Keeps artifact =
      if-Keeps Held options.reproducible _ _ (λ k s held. held) (λ k s held. held)

  build_node-Keeps : (node : Node) → Keeps Held (build_node services options node)
  unfolding build_node
  build_node-Keeps node =
      >>=-Keeps Held (run_node services node) _ (run_node-Keeps node) (λ artifact.
        >>=-Keeps Held (normalize services options artifact) _ (normalize-Keeps artifact)
          (λ bytes k s held. keeping.put_keeps node.hash bytes k s held))

  build_node-Held :
      (node : Node) (s : S) (r : Bool × Bool)
      → (build_node services options node s).0 ≡ ok r
      → Held node.hash (build_node services options node s).1
  unfolding build_node
  build_node-Held node s r e =
      let (artifact, done, e') = >>=-eq-ok (run_node services node) _ s e in
      let s' = (run_node services node s).1 in
      let (bytes, done', _) = >>=-eq-ok (normalize services options artifact) _ s' e' in
      rw (done, done')
        (keeping.put_holds node.hash bytes (normalize services options artifact s').1)

  hit-some :
      (cached : Result (Option Text))
      → is_hit services cached ≡ true
      → (bytes : Text) × (cached ≡ ok (some bytes))
  hit-some (ok none) hit = cc
  hit-some (ok (some bytes)) hit = (bytes, refl)
  hit-some (err e) hit = cc

  if-Held :
      {A : Type 0} (k : Text) (c : Bool) (x y : A × S)
      → Held k x.1
      → Held k y.1
      → Held k (if c then x else y).1
  if-Held k true x y hx hy = hx
  if-Held k false x y hx hy = hy

  execute_node_logic-Keeps : (node : Node) → Keeps Held (execute_node_logic services options node)
  unfolding execute_node_logic
  execute_node_logic-Keeps node k s held =
      let s' = (services.get_artifact node.hash s).1 in
      let got = keeping.get_keeps node.hash k s held in
      if-Held k (is_hit services (services.get_artifact node.hash s).0) _ _ got
        (if-Held k options.dry_run _ _ got (build_node-Keeps node k s' got))

  -- The laws of one node's run, for a build that is no dry run.
  pub Keeping-NodeLaws : NodeLaws services options Held (not options.dry_run)
  unfolding execute_node_logic
  Keeping-NodeLaws = record {
    keeps = λ node s k held. execute_node_logic-Keeps node k s held;
    fills = λ node s r real e.
        elim (Bool-cases (is_hit services (services.get_artifact node.hash s).0)) [
          | inl hit ↦
              let (bytes, found) = hit-some _ hit in
              rw hit (keeping.get_holds node.hash bytes s found)
          | inr miss ↦
              let wet : options.dry_run ≡ false = ground (arith, real) in
              rw (miss, wet)
                (build_node-Held node (services.get_artifact node.hash s).1 r (rw (miss, wet) at e))
        ];
    hits = λ node s real held. let (bytes, found) = keeping.found node.hash s held in rw found refl;
  }
