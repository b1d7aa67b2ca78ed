-- ===== src/Executor/Counts.antt =====
-- What the loops of the executor count, and which nodes they leave dirty.
use memo_build.Prelude.{
  ℕ, zero, suc, ◌+◌, ◌≡◌, refl, ap, ◌∙◌, Bool, true, false, not, ◌&&◌, ◌||◌, ◌==◌, Option, none,
  some, List, [], ◌∷◌, ◌++◌, map, arith, some_inj, length, length-modify, get_elem?, modify, filter,
  contains, contains-append, length-append,
}
use memo_build.Prelude.Results.{Result, ok, err, Action, ◌>>◌, >>=-eq-ok}
use mathlib.Core.List.{flatten}
use memo_build.Graph.{Node}
use memo_build.Core.{dirty_at}
use memo_build.Executor.Interface.{Services}
use memo_build.Executor.{
  ExecutionStats, Options, Build, run_node, normalize, build_node, execute_node_logic, finish_node,
  record_result, record_step, execute_entry, run_futures, cons_entry, snapshot, join_all,
  apply_results, execute_parallel_nodes, execute_one, execute_sequential_nodes, execute_level,
  execute_levels, is_parallel,
}

abbrev pub handled : ExecutionStats → ℕ
handled stats = stats.cache_hits + stats.cache_misses

-- The nodes `ids` were handled between `b` and `b'`, and came out clean if nothing was left out.
pub record Advance {S : Type 0} (clean : Bool) (ids : List ℕ) (b b' : Build S) : Type 0 where
  pub counted : handled b'.stats ≡ handled b.stats + length ids
  pub executed :
      b'.stats.executed_nodes + b.stats.cache_misses
      ≡ b.stats.executed_nodes + b'.stats.cache_misses
  pub total : b'.stats.total_nodes ≡ b.stats.total_nodes
  pub size : length b'.nodes ≡ length b.nodes
  pub cleaned :
      clean ≡ true → (j : ℕ) → dirty_at b'.nodes j ≡ (dirty_at b.nodes j && not (contains ids j))

module _ {S : Type 0} {clean : Bool} where
  pub Advance-refl : (b : Build S) → Advance clean [] b b
  Advance-refl b = record {
    counted = omega arith;
    executed = omega arith;
    total = refl;
    size = refl;
    cleaned = λ c j. ground arith;
  }

  pub Advance-trans :
      (is js ks : List ℕ) {a b c : Build S}
      → length ks ≡ length is + length js
      → ((j : ℕ) → contains ks j ≡ (contains is j || contains js j))
      → Advance clean is a b
      → Advance clean js b c
      → Advance clean ks a c
  Advance-trans is js ks size mem p q = record {
    counted = omega (arith, p.counted, q.counted);
    executed = omega (arith, p.executed, q.executed);
    total = q.total ∙ p.total;
    size = q.size ∙ p.size;
    cleaned = λ c j. ground (arith, mem j, p.cleaned c j, q.cleaned c j);
  }

dirty_at-finish :
    (now elapsed : ℕ) (r : Bool × Bool) (nodes : List Node) (i j : ℕ)
    → r.0 ≡ false
    → dirty_at (modify nodes i (finish_node now elapsed r)) j ≡ (dirty_at nodes j && not (i == j))
dirty_at-finish now elapsed (d, c) [] i j e = refl
dirty_at-finish now elapsed (d, c) (x ∷ nodes) zero zero e = ground arith
dirty_at-finish now elapsed (d, c) (x ∷ nodes) zero (suc j) e = ground arith
dirty_at-finish now elapsed (d, c) (x ∷ nodes) (suc i) zero e = ground arith
dirty_at-finish now elapsed (d, c) (x ∷ nodes) (suc i) (suc j) e =
    ground (arith, dirty_at-finish now elapsed (d, c) nodes i j e)

record_result-Advance :
    {S : Type 0} (clean : Bool) (id now elapsed : ℕ) (r : Bool × Bool) (b : Build S)
    → (clean ≡ true → r.0 ≡ false)
    → Advance clean (id ∷ []) b (record_result id now elapsed r b)
unfolding record_result
record_result-Advance clean id now elapsed (d, c) b h = record {
  counted = ground arith;
  executed = ground arith;
  total = ground arith;
  size = length-modify b.nodes id _;
  cleaned = λ e j. ground (arith, dirty_at-finish now elapsed (d, c) b.nodes id j (h e));
}

-- A group is taken apart into the parallel and the sequential nodes.
length-partition :
    (p : ℕ → Bool) (ids : List ℕ)
    → length ids ≡ length (filter p ids) + length (filter (λ id. not (p id)) ids)
length-partition p [] = omega arith
length-partition p (x ∷ ids) = ground (arith, length-partition p ids)

pub contains-partition :
    (p : ℕ → Bool) (ids : List ℕ) (j : ℕ)
    → contains ids j ≡ (contains (filter p ids) j || contains (filter (λ id. not (p id)) ids) j)
contains-partition p [] j = refl
contains-partition p (x ∷ ids) j = ground (arith, contains-partition p ids j)

cons_entry-ids :
    (id : ℕ) (ids : List ℕ) (entry : Option Node) (rest : Option (List (ℕ × Node)))
    (fs : List (ℕ × Node))
    → cons_entry id entry rest ≡ some fs
    → ((r : List (ℕ × Node)) → rest ≡ some r → map (λ (f : ℕ × Node). f.0) r ≡ ids)
    → map (λ (f : ℕ × Node). f.0) fs ≡ id ∷ ids
cons_entry-ids id ids none rest fs e h = cc
cons_entry-ids id ids (some node) none fs e h = cc
cons_entry-ids id ids (some node) (some r) fs e h = rw (← some_inj e) (ap (λ l. id ∷ l) (h r refl))

snapshot-ids :
    (nodes : List Node) (ids : List ℕ) (fs : List (ℕ × Node))
    → snapshot nodes ids ≡ some fs
    → map (λ (f : ℕ × Node). f.0) fs ≡ ids
unfolding snapshot
snapshot-ids nodes [] fs e = rw (← some_inj e)
snapshot-ids nodes (id ∷ ids) fs e =
    cons_entry-ids id ids (get_elem? nodes id) (snapshot nodes ids) fs e (snapshot-ids nodes ids)

module _ {S : Type 0} (services : Services S) (options : Options) where
  build_node-clean :
      (node : Node) (s : S) (r : Bool × Bool)
      → (build_node services options node s).0 ≡ ok r
      → r.0 ≡ false
  unfolding build_node
  build_node-clean node s r e =
      let (artifact, _, e') = >>=-eq-ok (run_node services node) _ s e in
      let (normalized, _, e'') = >>=-eq-ok (normalize services options artifact) _ _ e' in cc

  -- A build that is no dry run leaves its node clean.
  execute_node_logic-clean :
      (node : Node) (s : S) (r : Bool × Bool)
      → (execute_node_logic services options node s).0 ≡ ok r
      → not options.dry_run ≡ true
      → r.0 ≡ false
  unfolding execute_node_logic
  execute_node_logic-clean node s r e real =
      ground (arith, build_node-clean node (services.get_artifact node.hash s).1 r)

  abbrev real : Bool
  real = not options.dry_run

  record_step-Advance :
      (id : ℕ) (result : Result (Bool × Bool)) (b : Build S)
      → ((r : Bool × Bool) → result ≡ ok r → real ≡ true → r.0 ≡ false)
      → (record_step services options id result b).0 ≡ ok tt
      → Advance real (id ∷ []) b (record_step services options id result b).1
  unfolding record_step
  record_step-Advance id (err x) b clean e = cc
  record_step-Advance id (ok r) b clean e = record_result-Advance real id _ _ r b (clean r refl)

  -- A change of the services' state alone counts for nothing.
  Advance-outside :
      (ids : List ℕ) (b b' : Build S) (s : S)
      → Advance real ids (record b { outside = s }) b'
      → Advance real ids b b'
  Advance-outside ids b b' s a = record {
    counted = a.counted;
    executed = a.executed;
    total = a.total;
    size = a.size;
    cleaned = a.cleaned;
  }

  execute_entry-Advance :
      (id : ℕ) (entry : Option Node) (b : Build S)
      → (execute_entry services options id entry b).0 ≡ ok tt
      → Advance real (id ∷ []) b (execute_entry services options id entry b).1
  unfolding execute_entry
  execute_entry-Advance id none b e = cc
  execute_entry-Advance id (some node) b e =
      let (result, s) = execute_node_logic services options node b.outside in
      Advance-outside (id ∷ []) b _ s (
        record_step-Advance id result (record b { outside = s })
          (λ r eq. execute_node_logic-clean node b.outside r eq) e)

  -- A step and then another, over the nodes of both.
  >>-Advance :
      (m n : Action (Build S) (Unit {0})) (is js ks : List ℕ) (b : Build S)
      → length ks ≡ length is + length js
      → ((j : ℕ) → contains ks j ≡ (contains is j || contains js j))
      → ((m b).0 ≡ ok tt → Advance real is b (m b).1)
      → ((n (m b).1).0 ≡ ok tt → Advance real js (m b).1 (n (m b).1).1)
      → ((m >> n) b).0 ≡ ok tt
      → Advance real ks b ((m >> n) b).1
  >>-Advance m n is js ks b size mem hm hn e =
      let (_, first, rest) = >>=-eq-ok m (λ _. n) b e in
      rw first (Advance-trans is js ks size mem (hm first) (hn rest))

  pub execute_one-Advance :
      (id : ℕ) (b : Build S)
      → (execute_one services options id b).0 ≡ ok tt
      → Advance real (id ∷ []) b (execute_one services options id b).1
  unfolding execute_one
  execute_one-Advance id b = execute_entry-Advance id (get_elem? b.nodes id) b

  execute_sequential_nodes-Advance :
      (ids : List ℕ) (b : Build S)
      → (execute_sequential_nodes services options ids b).0 ≡ ok tt
      → Advance real ids b (execute_sequential_nodes services options ids b).1
  unfolding execute_sequential_nodes
  execute_sequential_nodes-Advance [] b e = Advance-refl b
  execute_sequential_nodes-Advance (id ∷ ids) b e =
      >>-Advance (execute_one services options id) (execute_sequential_nodes services options ids)
        (id ∷ []) ids (id ∷ ids) b (omega arith) (λ j. ground arith) (execute_one-Advance id b)
        (execute_sequential_nodes-Advance ids (execute_one services options id b).1) e

  -- The results of a group: none that succeeded is dirty if the build is real.
  abbrev AllClean : List (ℕ × Result (Bool × Bool) × ℕ) → Type 0
  AllClean [] = Unit
  AllClean ((id, result, elapsed) ∷ rest) =
      ((r : Bool × Bool) → result ≡ ok r → real ≡ true → r.0 ≡ false) × AllClean rest

  abbrev ids_of : List (ℕ × Result (Bool × Bool) × ℕ) → List ℕ
  ids_of [] = []
  ids_of ((id, result, elapsed) ∷ rest) = id ∷ ids_of rest

  apply_results-Advance :
      (results : List (ℕ × Result (Bool × Bool) × ℕ)) (b : Build S)
      → AllClean results
      → (apply_results services options results b).0 ≡ ok tt
      → Advance real (ids_of results) b (apply_results services options results b).1
  unfolding apply_results
  apply_results-Advance [] b clean e = Advance-refl b
  apply_results-Advance ((id, err x, elapsed) ∷ rest) b clean e = cc
  apply_results-Advance ((id, ok r, elapsed) ∷ rest) b clean e =
      let b' = record_result id (services.now b.outside) elapsed r b in
      Advance-trans (id ∷ []) (ids_of rest) (id ∷ ids_of rest) (omega arith) (λ j. ground arith)
        (record_result-Advance real id _ elapsed r b (clean.0 r refl))
        (apply_results-Advance rest b' clean.1 e)

  join_all-AllClean :
      (futures : List (ℕ × Node)) (s : S) → AllClean (join_all services options futures s).0
  unfolding join_all
  join_all-AllClean [] s = tt
  join_all-AllClean ((id, node) ∷ rest) s = (
    λ r e. execute_node_logic-clean node s r e,
    join_all-AllClean rest (execute_node_logic services options node s).1,
  )

  ids_of-join_all :
      (futures : List (ℕ × Node)) (s : S)
      → ids_of (join_all services options futures s).0 ≡ map (λ (f : ℕ × Node). f.0) futures
  unfolding join_all
  ids_of-join_all [] s = refl
  ids_of-join_all ((id, node) ∷ rest) s =
      ap (λ l. id ∷ l) (ids_of-join_all rest (execute_node_logic services options node s).1)

  run_futures-Advance :
      (futures : Option (List (ℕ × Node))) (ids : List ℕ) (b : Build S)
      → ((fs : List (ℕ × Node)) → futures ≡ some fs → map (λ (f : ℕ × Node). f.0) fs ≡ ids)
      → (run_futures services options futures b).0 ≡ ok tt
      → Advance real ids b (run_futures services options futures b).1
  unfolding run_futures
  run_futures-Advance none ids b same e = cc
  run_futures-Advance (some fs) ids b same e =
      let (results, s) = join_all services options fs b.outside in
      let listed = ids_of-join_all fs b.outside ∙ same fs refl in
      rw (← listed) (
        Advance-outside _ b _ s (
          apply_results-Advance results (record b { outside = s }) (join_all-AllClean fs b.outside)
            e))

  pub execute_parallel_nodes-Advance :
      (ids : List ℕ) (b : Build S)
      → (execute_parallel_nodes services options ids b).0 ≡ ok tt
      → Advance real ids b (execute_parallel_nodes services options ids b).1
  unfolding execute_parallel_nodes
  execute_parallel_nodes-Advance ids b =
      run_futures-Advance (snapshot b.nodes ids) ids b (snapshot-ids b.nodes ids)

  pub execute_level-Advance :
      (level : List ℕ) (b : Build S)
      → (execute_level services options level b).0 ≡ ok tt
      → Advance real level b (execute_level services options level b).1
  unfolding execute_level
  execute_level-Advance level b e =
      let p = is_parallel services options b.nodes in
      >>-Advance (execute_parallel_nodes services options (filter p level))
        (execute_sequential_nodes services options (filter (λ id. not (p id)) level))
        (filter p level) (filter (λ id. not (p id)) level) level b (length-partition p level)
        (contains-partition p level) (execute_parallel_nodes-Advance (filter p level) b)
        (execute_sequential_nodes-Advance (filter (λ id. not (p id)) level) _) e

  pub execute_levels-Advance :
      (groups : List (List ℕ)) (b : Build S)
      → (execute_levels services options groups b).0 ≡ ok tt
      → Advance real (flatten groups) b (execute_levels services options groups b).1
  unfolding execute_levels flatten
  execute_levels-Advance [] b e = Advance-refl b
  execute_levels-Advance (level ∷ groups) b e =
      >>-Advance (execute_level services options level) (execute_levels services options groups)
        level (flatten groups) (level ++ flatten groups) b (length-append level (flatten groups))
        (contains-append level (flatten groups)) (execute_level-Advance level b)
        (execute_levels-Advance groups _) e
