-- ===== src/Executor/Stock.antt =====
-- What the loops of the executor leave in the cache, and how many hits they count.
pub mod Futures
pub mod Loops
use memo_build.Prelude.{
  ℕ, zero, suc, ◌+◌, ◌≤◌, ◌≡◌, refl, ap, ◌∙◌, Bool, true, false, not, ◌&&◌, ◌||◌, ◌==◌, Option,
  none, some, sym, subst, List, [], ◌∷◌, ◌++◌, arith, some_inj, inl, inr, Bool-cases, length,
  length-append, length-modify, get_elem?, modify, filter, filter-append, contains, contains-append,
  if◌then◌else◌, Text,
}
use memo_build.Prelude.Results.{Result, ok, err, Action, ◌>>◌, >>=-eq-ok}
use mathlib.Core.List.{flatten}
use memo_build.Graph.{Node}
use memo_build.Executor.Interface.{Services}
use memo_build.Executor.{
  ExecutionStats, Options, Build, execute_node_logic, finish_node, record_result, record_step,
  execute_entry, run_futures, cons_entry, snapshot, join_all, apply_results, execute_parallel_nodes,
  execute_one, execute_sequential_nodes, execute_level, execute_levels, is_parallel,
}
use memo_build.Executor.Counts.{contains-partition}

abbrev pub hash_of : Option Node → Option Text
hash_of none = none
hash_of (some node) = some node.hash

-- The hash of the node at an index.
abbrev pub hash_at : List Node → ℕ → Option Text
hash_at nodes i = hash_of (get_elem? nodes i)

abbrev pub holds : (Text → Bool) → Option Text → Bool
holds known none = false
holds known (some h) = known h

abbrev pub known_at : (Text → Bool) → List Node → ℕ → Bool
known_at known nodes i = holds known (hash_at nodes i)

-- What is known of the run of one node: an artifact that is held stays held, and if `lasting`, a run
-- that succeeds leaves its node's artifact held, and a node whose artifact is held is a hit.
pub record NodeLaws {S : Type 0} (services : Services S) (options : Options)
    (Held : Text → S → Type 0) (lasting : Bool) : Type 0 where
  pub keeps :
      (node : Node) (s : S) (k : Text)
      → Held k s
      → Held k (execute_node_logic services options node s).1
  pub fills :
      (node : Node) (s : S) (r : Bool × Bool)
      → lasting ≡ true
      → (execute_node_logic services options node s).0 ≡ ok r
      → Held node.hash (execute_node_logic services options node s).1
  pub hits :
      (node : Node) (s : S)
      → lasting ≡ true
      → Held node.hash s
      → (execute_node_logic services options node s).0 ≡ ok (false, true)

-- What the run of the nodes `ids` did between `b` and `b'`.
pub record Run {S : Type 0} (Held : Text → S → Type 0) (lasting : Bool) (ids : List ℕ)
    (b b' : Build S) : Type 0 where
  pub kept : (k : Text) → Held k b.outside → Held k b'.outside
  pub hashes : (j : ℕ) → hash_at b'.nodes j ≡ hash_at b.nodes j
  pub stocked :
      lasting ≡ true
      → (j : ℕ) (h : Text) → contains ids j ≡ true
      → hash_at b.nodes j ≡ some h
      → Held h b'.outside
  pub counted :
      lasting ≡ true
      → (known : Text → Bool) → ((h : Text) → known h ≡ true → Held h b.outside)
      → b.stats.cache_hits + length (filter (known_at known b.nodes) ids) ≤ b'.stats.cache_hits

filter-same :
    (p q : ℕ → Bool) (xs : List ℕ)
    → ((j : ℕ) → p j ≡ q j)
    → length (filter p xs) ≡ length (filter q xs)
filter-same p q [] same = refl
filter-same p q (x ∷ xs) same = ground (arith, same x, filter-same p q xs same)

module _ {S : Type 0} {Held : Text → S → Type 0} {lasting : Bool} where
  pub Run-refl : (b : Build S) → Run Held lasting [] b b
  Run-refl b = record {
    kept = λ k h. h;
    hashes = λ j. refl;
    stocked = λ l j h m. cc m;
    counted = λ l known all. omega arith;
  }

  pub Run-trans :
      (is js ks : List ℕ) {a b c : Build S}
      → ((p : ℕ → Bool) → length (filter p ks) ≡ length (filter p is) + length (filter p js))
      → ((j : ℕ) → contains ks j ≡ (contains is j || contains js j))
      → Run Held lasting is a b
      → Run Held lasting js b c
      → Run Held lasting ks a c
  Run-trans is js ks {a} {b} size mem p q = record {
    kept = λ k h. q.kept k (p.kept k h);
    hashes = λ j. q.hashes j ∙ p.hashes j;
    stocked = λ l j h m e. elim (Bool-cases (contains is j)) [
      | inl first ↦ q.kept h (p.stocked l j h first e)
      | inr later ↦ q.stocked l j h (ground (arith, mem j)) (p.hashes j ∙ e)
    ];
    counted = λ l known all.
        let same =
          filter-same (known_at known b.nodes) (known_at known a.nodes) js
            (λ j. ap (holds known) (p.hashes j)) in
        omega (
          arith,
          size (known_at known a.nodes),
          same,
          p.counted l known all,
          q.counted l known (λ h e. p.kept h (all h e)),
        );
  }

pub hash_at-finish :
    (now elapsed : ℕ) (r : Bool × Bool) (nodes : List Node) (i j : ℕ)
    → hash_at (modify nodes i (finish_node now elapsed r)) j ≡ hash_at nodes j
hash_at-finish now elapsed (d, c) [] i j = refl
hash_at-finish now elapsed (d, c) (x ∷ nodes) zero zero = refl
hash_at-finish now elapsed (d, c) (x ∷ nodes) zero (suc j) = refl
hash_at-finish now elapsed (d, c) (x ∷ nodes) (suc i) zero = refl
hash_at-finish now elapsed (d, c) (x ∷ nodes) (suc i) (suc j) =
    hash_at-finish now elapsed (d, c) nodes i j
