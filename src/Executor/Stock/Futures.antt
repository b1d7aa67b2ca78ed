-- ===== src/Executor/Stock/Futures.antt =====
-- A group of nodes whose futures run together: the runs, and then their results.
use memo_build.Prelude.{
  ℕ, ◌+◌, ◌≤◌, ◌≡◌, refl, ap, ◌∙◌, Bool, true, ◌==◌, Option, none, some, sym, subst, List, [], ◌∷◌,
  arith, some_inj, inl, inr, Bool-cases, length, get_elem?, filter, contains, if◌then◌else◌, Text,
}
use memo_build.Prelude.Results.{Result, ok, err}
use memo_build.Graph.{Node}
use memo_build.Executor.Interface.{Services}
use memo_build.Executor.{
  Options, Build, execute_node_logic, record_result, run_futures, cons_entry, snapshot, join_all,
  apply_results, execute_parallel_nodes,
}
use memo_build.Executor.Stock.{NodeLaws, Run, hash_of, hash_at, known_at, hash_at-finish}

-- What the nodes' runs are before their results are recorded.
abbrev listed : (Text → Bool) → ℕ × Node → Bool
listed known (id, node) = known node.hash

cons_entry-some :
    (id : ℕ) (entry : Option Node) (rest : Option (List (ℕ × Node))) (fs : List (ℕ × Node))
    → cons_entry id entry rest ≡ some fs
    → (node : Node) × (tail : List (ℕ × Node)) × (entry ≡ some node)
      × (rest ≡ some tail)
      × (fs ≡ (id, node) ∷ tail)
cons_entry-some id none rest fs e = cc
cons_entry-some id (some node) none fs e = cc
cons_entry-some id (some node) (some tail) fs e = (node, tail, refl, refl, cc)

snapshot-listed :
    (known : Text → Bool) (nodes : List Node) (ids : List ℕ) (fs : List (ℕ × Node))
    → snapshot nodes ids ≡ some fs
    → length (filter (known_at known nodes) ids) ≡ length (filter (listed known) fs)
unfolding snapshot
snapshot-listed known nodes [] fs e = rw (← some_inj e) refl
snapshot-listed known nodes (id ∷ ids) fs e =
    let (node, tail, found, rest, shape) =
      cons_entry-some id (get_elem? nodes id) (snapshot nodes ids) fs e in
    rw (shape, found) (ground (arith, snapshot-listed known nodes ids tail rest))

abbrev pub Results : Type 0
Results = List (ℕ × Result (Bool × Bool) × ℕ)

abbrev hits_of : Results → ℕ
hits_of [] = 0
hits_of ((id, ok (dirty, cache_hit), elapsed) ∷ rest) = (if cache_hit then 1 else 0) + hits_of rest
hits_of ((id, err e, elapsed) ∷ rest) = hits_of rest

hits_of-cons :
    (id : ℕ) (result : Result (Bool × Bool)) (elapsed : ℕ) (rest : Results)
    → hits_of rest ≤ hits_of ((id, result, elapsed) ∷ rest)
hits_of-cons id (ok (dirty, hit)) elapsed rest = ground arith
hits_of-cons id (err e) elapsed rest = omega arith

abbrev pub AllOk : Results → Type 0
AllOk [] = Unit
AllOk ((id, result, elapsed) ∷ rest) = ((r : Bool × Bool) × (result ≡ ok r)) × AllOk rest

module _ {S : Type 0} (services : Services S) (options : Options) (Held : Text → S → Type 0)
    {lasting : Bool} (laws : NodeLaws services options Held lasting) where
  abbrev pub AllHeld : List (ℕ × Node) → S → Type 0
  AllHeld [] s = Unit
  AllHeld ((id, node) ∷ rest) s = Held node.hash s × AllHeld rest s

  join_all-kept :
      (fs : List (ℕ × Node)) (s : S) (k : Text)
      → Held k s
      → Held k (join_all services options fs s).1
  unfolding join_all
  join_all-kept [] s k h = h
  join_all-kept ((id, node) ∷ rest) s k h = join_all-kept rest _ k (laws.keeps node s k h)

  join_all-stocked :
      (fs : List (ℕ × Node)) (s : S)
      → lasting ≡ true
      → AllOk (join_all services options fs s).0
      → AllHeld fs (join_all services options fs s).1
  unfolding join_all
  join_all-stocked [] s l all = tt
  join_all-stocked ((id, node) ∷ rest) s l all = (
    join_all-kept rest _ node.hash (laws.fills node s all.0.0 l all.0.1),
    join_all-stocked rest _ l all.1,
  )

  join_all-counted :
      (known : Text → Bool) (fs : List (ℕ × Node)) (s : S)
      → lasting ≡ true
      → ((h : Text) → known h ≡ true → Held h s)
      → length (filter (listed known) fs) ≤ hits_of (join_all services options fs s).0
  unfolding join_all
  join_all-counted known [] s l all = omega arith
  join_all-counted known ((id, node) ∷ rest) s l all =
      let later =
        join_all-counted known rest (execute_node_logic services options node s).1 l
          (λ h e. laws.keeps node s h (all h e)) in
      elim (Bool-cases (known node.hash)) [
        | inl old ↦ rw (old, laws.hits node s l (all node.hash old)) (omega (arith, later))
        | inr new ↦ rw new (
            omega (
              arith,
              later,
              hits_of-cons id (execute_node_logic services options node s).0
                  (services.elapsed_ms (execute_node_logic services options node s).1)
                  (join_all services options rest (execute_node_logic services options node s).1).0,
            ))
      ]

  apply_results-AllOk :
      (results : Results) (b : Build S)
      → (apply_results services options results b).0 ≡ ok tt
      → AllOk results
  unfolding apply_results
  apply_results-AllOk [] b e = tt
  apply_results-AllOk ((id, ok r, elapsed) ∷ rest) b e = ((r, refl), apply_results-AllOk rest _ e)
  apply_results-AllOk ((id, err x, elapsed) ∷ rest) b e = cc

  -- Recording a result changes neither the services' state nor a hash.
  apply_results-records :
      (results : Results) (b : Build S)
      → (apply_results services options results b).0 ≡ ok tt
      → ((apply_results services options results b).1.outside ≡ b.outside)
        × ((j : ℕ)
            → hash_at (apply_results services options results b).1.nodes j ≡ hash_at b.nodes j)
        × ((apply_results services options results b).1.stats.cache_hits
            ≡ b.stats.cache_hits + hits_of results)
  unfolding apply_results record_result
  apply_results-records [] b e = (refl, λ j. refl, omega arith)
  apply_results-records ((id, ok (dirty, hit), elapsed) ∷ rest) b e =
      let b' = record_result id (services.now b.outside) elapsed (dirty, hit) b in
      let (same, hashes, hits) = apply_results-records rest b' e in
      (
        same,
        λ j. hashes j ∙ hash_at-finish (services.now b.outside) elapsed (dirty, hit) b.nodes id j,
        ground (arith, hits),
      )
  apply_results-records ((id, err x, elapsed) ∷ rest) b e = cc

  AllHeld-at :
      (nodes : List Node) (ids : List ℕ) (fs : List (ℕ × Node)) (s : S)
      → snapshot nodes ids ≡ some fs
      → AllHeld fs s
      → (j : ℕ) (h : Text) → contains ids j ≡ true
      → hash_at nodes j ≡ some h
      → Held h s
  unfolding snapshot
  AllHeld-at nodes [] fs s taken all j h m e = cc m
  AllHeld-at nodes (id ∷ ids) fs s taken all j h m e =
      let (node, tail, found, rest, shape) =
        cons_entry-some id (get_elem? nodes id) (snapshot nodes ids) fs taken in
      let all' : AllHeld ((id, node) ∷ tail) s = subst (λ l. AllHeld l s) shape all in
      elim (Bool-cases (id == j)) [
        | inl same ↦
            let at : hash_at nodes id ≡ some h = ap (hash_at nodes) (ground arith) ∙ e in
            let eq : node.hash ≡ h = some_inj (sym (ap hash_of found) ∙ at) in
            subst (λ k. Held k s) eq all'.0
        | inr other ↦ AllHeld-at nodes ids tail s rest all'.1 j h (ground arith) e
      ]

  run_futures-Run :
      (futures : Option (List (ℕ × Node))) (ids : List ℕ) (b : Build S)
      → snapshot b.nodes ids ≡ futures
      → (run_futures services options futures b).0 ≡ ok tt
      → Run Held lasting ids b (run_futures services options futures b).1
  unfolding run_futures
  run_futures-Run none ids b taken e = cc
  run_futures-Run (some fs) ids b taken e =
      let results = (join_all services options fs b.outside).0 in
      let s = (join_all services options fs b.outside).1 in
      let (same, hashes, hits) = apply_results-records results (record b { outside = s }) e in
      let oks = apply_results-AllOk results (record b { outside = s }) e in
      record {
        kept = λ k h. subst (Held k) (sym same) (join_all-kept fs b.outside k h);
        hashes = hashes;
        stocked = λ l j h m at.
            subst (Held h) (sym same)
              (AllHeld-at b.nodes ids fs s taken (join_all-stocked fs b.outside l oks) j h m at);
        counted = λ l known all. omega (
          arith,
          hits,
          snapshot-listed known b.nodes ids fs taken,
          join_all-counted known fs b.outside l all,
        );
      }

  pub execute_parallel_nodes-Run :
      (ids : List ℕ) (b : Build S)
      → (execute_parallel_nodes services options ids b).0 ≡ ok tt
      → Run Held lasting ids b (execute_parallel_nodes services options ids b).1
  unfolding execute_parallel_nodes
  execute_parallel_nodes-Run ids b = run_futures-Run (snapshot b.nodes ids) ids b refl
