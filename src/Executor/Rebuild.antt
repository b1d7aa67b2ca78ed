-- ===== src/Executor/Rebuild.antt =====
-- Builds one after the other over a cache that keeps what it is given.
use mathlib.Core.List.{flatten}
use memo_build.Prelude.{
  ℕ, zero, suc, ◌+◌, ◌≤◌, ◌<◌, ◌≡◌, refl, sym, ap, ◌∙◌, subst, Bool, true, false, not, ◌==◌, some,
  some_inj, List, [], ◌∷◌, arith, inl, inr, Bool-cases, ltb, length, map, contains, filter,
  get_elem?, get_elem?-in_range, if◌then◌else◌, Text, contains_text, text_eq, text_eq_iff,
  text_eq_refl,
}
use memo_build.Prelude.Results.{ok, >>=-eq-ok}
use memo_build.Graph.{Node, BuildGraph}
use memo_build.Graph.Levels.Whole.{levels-whole}
use memo_build.Executor.Interface.{Services}
use memo_build.Executor.{
  ExecutionStats, Options, Build, execute_levels, execute_groups, execute, set_time, fresh_stats,
}
use memo_build.Executor.Totals.{execute-IsComplete}
use memo_build.Executor.Returns.{execute-ok}
use memo_build.Executor.Keeping.{Keeping, Keeping-NodeLaws}
use memo_build.Executor.Stock.{NodeLaws, holds, hash_of, hash_at, known_at}
use memo_build.Executor.Stock.Loops.{execute_levels-Run}

-- A list without the first occurrence of a number.
abbrev remove_one : List ℕ → ℕ → List ℕ
remove_one [] x = []
remove_one (y ∷ ys) x = if x == y then ys else y ∷ remove_one ys x

remove_one-other :
    (xs : List ℕ) (x y : ℕ)
    → contains xs y ≡ true
    → (x == y) ≡ false
    → contains (remove_one xs x) y ≡ true
remove_one-other [] x y m other = cc
remove_one-other (z ∷ xs) x y m other = ground (arith, remove_one-other xs x y)

filter-remove_one :
    (p : ℕ → Bool) (xs : List ℕ) (x : ℕ)
    → contains xs x ≡ true
    → length (filter p xs) ≡ (if p x then 1 else 0) + length (filter p (remove_one xs x))
filter-remove_one p [] x m = cc
filter-remove_one p (y ∷ xs) x m = elim (Bool-cases (x == y)) [
  | inl same ↦ let eq : x ≡ y = ground arith in rw (eq) (ground arith)
  | inr other ↦ rw other (ground (arith, filter-remove_one p xs x (ground arith)))
]

-- A list that holds the index of every node has at least as many entries of a kind as there are nodes
-- of that kind.
filter-every :
    (p : Node → Bool) (q : ℕ → Bool) (nodes : List Node) (k : ℕ) (xs : List ℕ)
    → ((j : ℕ) (node : Node) → get_elem? nodes j ≡ some node → q (k + j) ≡ p node)
    → ((j : ℕ) → j < length nodes → contains xs (k + j) ≡ true)
    → length (filter p nodes) ≤ length (filter q xs)
filter-every p q [] k xs same mem = omega arith
filter-every p q (node ∷ nodes) k xs same mem =
    let at : k + 0 ≡ k = omega arith in
    let this : q k ≡ p node = sym (ap q at) ∙ same 0 node refl in
    let rest =
      filter-every p q nodes (suc k) (remove_one xs k)
        (λ j n e. ap q (let a : suc k + j ≡ k + suc j = omega arith in a) ∙ same (suc j) n e)
        (λ j lt.
          remove_one-other xs k (suc k + j)
            (ap (contains xs) (let a : suc k + j ≡ k + suc j = omega arith in a)
              ∙ mem (suc j) (omega arith))
            (ground arith)) in
    ground (
      arith,
      filter-remove_one q xs k (sym (ap (contains xs) at) ∙ mem 0 (omega arith)),
      this,
      rest,
    )

-- The hashes of a graph's nodes.
abbrev pub hashes : BuildGraph → List Text
hashes graph = map (λ (node : Node). node.hash) graph.nodes

hashes-member :
    (nodes : List Node) (h : Text)
    → contains_text (map (λ (node : Node). node.hash) nodes) h ≡ true
    → (j : ℕ) × (j < length nodes) × (hash_at nodes j ≡ some h)
hashes-member [] h m = cc
hashes-member (node ∷ nodes) h m = elim (Bool-cases (text_eq node.hash h)) [
  | inl same ↦ (0, omega arith, ap some ((text_eq_iff node.hash h).0 same))
  | inr other ↦
      let (j, lt, at) = hashes-member nodes h (ground arith) in (suc j, omega (arith, lt), at)
]

pub hash-member :
    (nodes : List Node) (j : ℕ) (node : Node)
    → get_elem? nodes j ≡ some node
    → contains_text (map (λ (n : Node). n.hash) nodes) node.hash ≡ true
hash-member [] j node e = cc
hash-member (x ∷ nodes) zero node e =
    let same : x ≡ node = some_inj e in rw same (ground (arith, text_eq_refl node.hash))
hash-member (x ∷ nodes) (suc j) node e = ground (arith, hash-member nodes j node e)

filter-all :
    {A : Type 0} (p : A → Bool) (xs : List A)
    → ((j : ℕ) (x : A) → get_elem? xs j ≡ some x → p x ≡ true)
    → length (filter p xs) ≡ length xs
filter-all p [] all = refl
filter-all p (x ∷ xs) all = rw (all 0 x refl) (ap suc (filter-all p xs (λ j y e. all (suc j) y e)))

filter-not :
    {A : Type 0} (p : A → Bool) (xs : List A)
    → length (filter p xs) + length (filter (λ x. not (p x)) xs) ≡ length xs
filter-not p [] = refl
filter-not p (x ∷ xs) = ground (arith, filter-not p xs)

pub filter-map :
    {A B : Type 0} (f : A → B) (p : B → Bool) (xs : List A)
    → length (filter (λ x. p (f x)) xs) ≡ length (filter p (map f xs))
filter-map f p [] = refl
filter-map f p (x ∷ xs) = ground (arith, filter-map f p xs)

module _ {S : Type 0} {Held : Text → S → Type 0} (services : Services S) (options : Options)
    (keeping : Keeping Held services) (real : options.dry_run ≡ false) where
  laws : NodeLaws services options Held (not options.dry_run)
  laws = Keeping-NodeLaws services options keeping

  lasting : not options.dry_run ≡ true
  lasting = ground arith

  -- What the levels of the graph did, in a build that succeeds.
  abbrev Whole : BuildGraph → S → ExecutionStats → Build S → Type 0
  Whole graph s stats b =
      ((h : Text) → contains_text (hashes graph) h ≡ true → Held h b.outside)
      × ((h : Text) → Held h s → Held h b.outside)
      × ((known : Text → Bool)
          → ((h : Text) → known h ≡ true → Held h s)
          → length (filter (λ (node : Node). known node.hash) graph.nodes) ≤ stats.cache_hits)

  execute_groups-Whole :
      (graph : BuildGraph) (s : S) (groups : List (List ℕ)) (stats : ExecutionStats)
      → ((x : ℕ) → contains (flatten groups) x ≡ ltb x (length graph.nodes))
      → (execute_groups services options (some groups) graph s).0 ≡ ok stats
      → Whole graph s stats (execute_groups services options (some groups) graph s).1
  unfolding execute_groups
  execute_groups-Whole graph s groups stats mem e =
      let start : Build S = record {
        nodes = graph.nodes;
        stats = fresh_stats (length graph.nodes) (length groups);
        outside = s;
      } in
      let (_, first, last) =
        >>=-eq-ok (execute_levels services options groups) (λ _. set_time services options) start
          e in
      let run = execute_levels-Run services options Held laws groups start first in
      rw first (
        λ h m.
            let (j, lt, at) = hashes-member graph.nodes h m in
            run.stocked lasting j h (ground (arith, mem j)) at,
        λ h held. run.kept h held,
        λ known all.
            let hits = run.counted lasting known all in
            let every =
              filter-every (λ (node : Node). known node.hash) (known_at known graph.nodes)
                graph.nodes 0 (flatten groups)
                (λ j node found.
                  ap (known_at known graph.nodes) (omega arith)
                  ∙ ap (λ o. holds known (hash_of o)) found)
                (λ j lt. ground (arith, mem j)) in
            ground (arith, hits, every),
      )

  pub execute-Whole :
      (graph : BuildGraph) (s : S) (stats : ExecutionStats)
      → (execute services options graph s).0 ≡ ok stats
      → Whole graph s stats (execute services options graph s).1
  unfolding execute
  execute-Whole graph s =
      let (groups, returns, size, mem) = levels-whole graph in
      subst
        (λ o.
          (stats : ExecutionStats)
          → (execute_groups services options o graph s).0 ≡ ok stats
          → Whole graph s stats (execute_groups services options o graph s).1)
        (sym returns) (λ stats. execute_groups-Whole graph s groups stats mem)

  -- What a build of `graph` from the state `s` counts when every artifact is in the cache.
  pub record AllHits (graph : BuildGraph) (s : S) : Type 0 where
    pub stats : ExecutionStats
    pub returns : (execute services options graph s).0 ≡ ok stats
    pub hits : stats.cache_hits ≡ length graph.nodes
    pub misses : stats.cache_misses ≡ 0
    pub executed : stats.executed_nodes ≡ 0

  -- If the artifact of every node is held, the build succeeds and every node is a hit.
  pub execute-AllHits :
      (graph : BuildGraph) (s : S)
      → ((h : Text) → contains_text (hashes graph) h ≡ true → Held h s)
      → AllHits graph s
  execute-AllHits graph s all =
      let (stats, done) =
        execute-ok services options Held laws
          (λ node t held. ((false, true), laws.hits node t lasting held)) graph s
          (λ j lt.
            let (node, found) = get_elem?-in_range graph.nodes j lt in
            (node.hash, ap hash_of found, all node.hash (hash-member graph.nodes j node found))) in
      let complete = execute-IsComplete services options graph s stats done in
      let (_, _, hits) = execute-Whole graph s stats done in
      let known = contains_text (hashes graph) in
      let every =
        filter-all (λ (node : Node). known node.hash) graph.nodes (hash-member graph.nodes) in
      let count = hits known all in
      record {
        stats = stats;
        returns = done;
        hits = omega (arith, count, every, complete.counted, complete.executed);
        misses = omega (arith, count, every, complete.counted, complete.executed);
        executed = omega (arith, count, every, complete.counted, complete.executed);
      }

  -- A build that succeeds executes at most as many nodes as it has nodes whose artifact is not known to
  -- be held.
  pub execute-unknown :
      (graph : BuildGraph) (s : S) (stats : ExecutionStats) (known : List Text)
      → ((h : Text) → contains_text known h ≡ true → Held h s)
      → (execute services options graph s).0 ≡ ok stats
      → stats.executed_nodes ≤ length (filter (λ h. not (contains_text known h)) (hashes graph))
  execute-unknown graph s stats known all done =
      let (_, _, hits) = execute-Whole graph s stats done in
      let complete = execute-IsComplete services options graph s stats done in
      let p = contains_text known in
      omega (
        arith,
        hits p all,
        complete.counted,
        complete.executed,
        filter-not (λ (node : Node). p node.hash) graph.nodes,
        filter-map (λ (node : Node). node.hash) (λ h. not (p h)) graph.nodes,
      )
