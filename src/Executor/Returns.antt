-- ===== src/Executor/Returns.antt =====
-- When a build cannot fail: a dry run, and a build whose artifacts are all held.
use mathlib.Core.List.{flatten}
use memo_build.Prelude.{
  ℕ, ◌<◌, ◌≡◌, refl, ◌∙◌, Bool, true, false, not, Option, none, some, List, [], ◌∷◌, arith, inl,
  inr, Bool-cases, length, contains, contains-append, filter, get_elem?, get_elem?-in_range, Text,
  some_inj, sym, subst, ap,
}
use memo_build.Prelude.Results.{ok, err, Action, ◌>>◌}
use memo_build.Graph.{Node, BuildGraph}
use memo_build.Graph.Levels.Whole.{levels-whole}
use memo_build.Executor.Interface.{Services}
use memo_build.Executor.{
  ExecutionStats, Options, Build, is_hit, execute_node_logic, snapshot, join_all, apply_results,
  execute_parallel_nodes, execute_entry, execute_one, execute_sequential_nodes, is_parallel,
  execute_level, execute_levels, execute_groups, execute, fresh_stats,
}
use memo_build.Executor.Counts.{contains-partition}
use memo_build.Executor.Stock.{NodeLaws, Run, hash_of, hash_at}
use memo_build.Executor.Stock.Futures.{Results, AllOk, AllHeld, execute_parallel_nodes-Run}
use memo_build.Executor.Stock.Loops.{execute_one-Run, execute_level-Run}

hash_of-some :
    (entry : Option Node) (h : Text)
    → hash_of entry ≡ some h
    → (node : Node) × (entry ≡ some node) × (node.hash ≡ h)
hash_of-some none h e = cc
hash_of-some (some node) h e = (node, refl, some_inj e)

module _ {S : Type 0} (services : Services S) (options : Options) (Held : Text → S → Type 0)
    {lasting : Bool} (laws : NodeLaws services options Held lasting)
    (returns : (node : Node) (s : S)
      → Held node.hash s
      → (r : Bool × Bool) × ((execute_node_logic services options node s).0 ≡ ok r)) where
  -- The nodes `ids` are in range, and their artifacts are held.
  abbrev IsReady : List ℕ → Build S → Type 0
  IsReady ids b =
      (j : ℕ) → contains ids j ≡ true → (h : Text) × (hash_at b.nodes j ≡ some h) × Held h b.outside

  Run-IsReady :
      (is js : List ℕ) (b b' : Build S) → Run Held lasting is b b' → IsReady js b → IsReady js b'
  Run-IsReady is js b b' run ready j m =
      let (h, at, held) = ready j m in (h, run.hashes j ∙ at, run.kept h held)

  snapshot-returns :
      (ids : List ℕ) (b : Build S)
      → IsReady ids b
      → (fs : List (ℕ × Node)) × (snapshot b.nodes ids ≡ some fs)
        × AllHeld services options Held laws fs b.outside
  unfolding snapshot
  snapshot-returns [] b ready = ([], refl, tt)
  snapshot-returns (id ∷ ids) b ready =
      let (h, at, held) = ready id (ground arith) in
      let (node, found, same) = hash_of-some (get_elem? b.nodes id) h at in
      let (fs, rest, all) = snapshot-returns ids b (λ j m. ready j (ground arith)) in
      ((id, node) ∷ fs, rw (found, rest), (subst (λ k. Held k b.outside) (sym same) held, all))

  AllHeld-keeps :
      (node : Node) (fs : List (ℕ × Node)) (s : S)
      → AllHeld services options Held laws fs s
      → AllHeld services options Held laws fs (execute_node_logic services options node s).1
  AllHeld-keeps node [] s all = tt
  AllHeld-keeps node ((id, other) ∷ rest) s all =
      (laws.keeps node s other.hash all.0, AllHeld-keeps node rest s all.1)

  join_all-AllOk :
      (fs : List (ℕ × Node)) (s : S)
      → AllHeld services options Held laws fs s
      → AllOk (join_all services options fs s).0
  unfolding join_all
  join_all-AllOk [] s all = tt
  join_all-AllOk ((id, node) ∷ rest) s all =
      (returns node s all.0, join_all-AllOk rest _ (AllHeld-keeps node rest s all.1))

  apply_results-ok :
      (results : Results) (b : Build S)
      → AllOk results
      → (apply_results services options results b).0 ≡ ok tt
  unfolding apply_results
  apply_results-ok [] b all = refl
  apply_results-ok ((id, ok r, elapsed) ∷ rest) b all = apply_results-ok rest _ all.1
  apply_results-ok ((id, err x, elapsed) ∷ rest) b all = cc (all.0.1)

  execute_parallel_nodes-ok :
      (ids : List ℕ) (b : Build S)
      → IsReady ids b
      → (execute_parallel_nodes services options ids b).0 ≡ ok tt
  unfolding execute_parallel_nodes
  execute_parallel_nodes-ok ids b ready =
      let (fs, taken, all) = snapshot-returns ids b ready in
      rw taken (apply_results-ok _ _ (join_all-AllOk fs b.outside all))

  execute_entry-ok :
      (id : ℕ) (node : Node) (b : Build S)
      → Held node.hash b.outside
      → (execute_entry services options id (some node) b).0 ≡ ok tt
  unfolding execute_entry
  execute_entry-ok id node b held = let (r, done) = returns node b.outside held in rw done

  execute_one-ok :
      (id : ℕ) (b : Build S) → IsReady (id ∷ []) b → (execute_one services options id b).0 ≡ ok tt
  unfolding execute_one
  execute_one-ok id b ready =
      let (h, at, held) = ready id (ground arith) in
      let (node, found, same) = hash_of-some (get_elem? b.nodes id) h at in
      rw found (execute_entry-ok id node b (subst (λ k. Held k b.outside) (sym same) held))

  >>-ok :
      (m n : Action (Build S) (Unit {0})) (b : Build S)
      → (m b).0 ≡ ok tt
      → (n (m b).1).0 ≡ ok tt
      → ((m >> n) b).0 ≡ ok tt
  >>-ok m n b hm hn = rw hm hn

  execute_sequential_nodes-ok :
      (ids : List ℕ) (b : Build S)
      → IsReady ids b
      → (execute_sequential_nodes services options ids b).0 ≡ ok tt
  unfolding execute_sequential_nodes
  execute_sequential_nodes-ok [] b ready = refl
  execute_sequential_nodes-ok (id ∷ ids) b ready =
      let first = execute_one-ok id b (λ j m. ready j (ground arith)) in
      let run = execute_one-Run services options Held laws id b first in
      >>-ok (execute_one services options id) (execute_sequential_nodes services options ids) b
        first
        (execute_sequential_nodes-ok ids _
          (Run-IsReady (id ∷ []) ids b _ run (λ j m. ready j (ground arith))))

  execute_level-ok :
      (level : List ℕ) (b : Build S)
      → IsReady level b
      → (execute_level services options level b).0 ≡ ok tt
  unfolding execute_level
  execute_level-ok level b ready =
      let p = is_parallel services options b.nodes in
      let parts = contains-partition p level in
      let first =
        execute_parallel_nodes-ok (filter p level) b (λ j m. ready j (ground (arith, parts j))) in
      let run = execute_parallel_nodes-Run services options Held laws (filter p level) b first in
      >>-ok (execute_parallel_nodes services options (filter p level))
        (execute_sequential_nodes services options (filter (λ id. not (p id)) level)) b first
        (execute_sequential_nodes-ok (filter (λ id. not (p id)) level) _
          (Run-IsReady (filter p level) _ b _ run (λ j m. ready j (ground (arith, parts j)))))

  execute_levels-ok :
      (groups : List (List ℕ)) (b : Build S)
      → IsReady (flatten groups) b
      → (execute_levels services options groups b).0 ≡ ok tt
  unfolding execute_levels flatten
  execute_levels-ok [] b ready = refl
  execute_levels-ok (level ∷ groups) b ready =
      let parts = contains-append level (flatten groups) in
      let first = execute_level-ok level b (λ j m. ready j (ground (arith, parts j))) in
      let run = execute_level-Run services options Held laws level b first in
      >>-ok (execute_level services options level) (execute_levels services options groups) b first
        (execute_levels-ok groups _
          (Run-IsReady level _ b _ run (λ j m. ready j (ground (arith, parts j)))))

  -- If every node is held at the start, and the run of a held node returns, the build returns its
  -- statistics.
  pub execute-ok :
      (graph : BuildGraph) (s : S)
      → ((j : ℕ)
          → j < length graph.nodes
          → (h : Text) × (hash_at graph.nodes j ≡ some h) × Held h s)
      → (stats : ExecutionStats) × ((execute services options graph s).0 ≡ ok stats)
  unfolding execute execute_groups
  execute-ok graph s all =
      let (groups, found, size, mem) = levels-whole graph in
      let start : Build S = record {
        nodes = graph.nodes;
        stats = fresh_stats (length graph.nodes) (length groups);
        outside = s;
      } in
      let done = execute_levels-ok groups start (λ j m. all j (ground (arith, mem j))) in
      (
        record (execute_levels services options groups start).1.stats {
          total_execution_time_ms =
              services.elapsed_ms (execute_levels services options groups start).1.outside;
        },
        rw (found, done),
      )

execute_node_logic-dry_run :
    {S : Type 0} (services : Services S) (options : Options)
    → options.dry_run ≡ true
    → (node : Node) (s : S)
    → (r : Bool × Bool) × ((execute_node_logic services options node s).0 ≡ ok r)
unfolding execute_node_logic
execute_node_logic-dry_run services options dry node s =
    elim (Bool-cases (is_hit services (services.get_artifact node.hash s).0)) [
      | inl hit ↦ ((false, true), rw hit)
      | inr miss ↦ ((node.dirty, false), rw (miss, dry))
    ]

-- Where nothing is asked of the cache.
dry_laws :
    {S : Type 0} (services : Services S) (options : Options)
    → NodeLaws services options (λ h s. Unit {0}) false
dry_laws services options = record {
  keeps = λ node s k held. tt;
  fills = λ node s r l e. tt;
  hits = λ node s l. cc l;
}

-- A dry run of any graph returns its statistics, whatever the cache and the other services answer.
pub execute-dry_run :
    {S : Type 0} (services : Services S) (options : Options) (graph : BuildGraph) (s : S)
    → options.dry_run ≡ true
    → (stats : ExecutionStats) × ((execute services options graph s).0 ≡ ok stats)
execute-dry_run services options graph s dry =
    execute-ok services options (λ h s. Unit {0}) (dry_laws services options)
      (λ node t held. execute_node_logic-dry_run services options dry node t) graph s
      (λ j lt.
        let (node, found) = get_elem?-in_range graph.nodes j lt in
        (node.hash, ap hash_of found, tt))
