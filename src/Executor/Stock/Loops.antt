-- ===== src/Executor/Stock/Loops.antt =====
-- The sequential loop, a level, and all levels.
use memo_build.Prelude.{
  ℕ, ◌+◌, ◌≡◌, refl, ap, ◌∙◌, Bool, true, false, not, ◌||◌, Option, none, some, sym, subst, List,
  [], ◌∷◌, ◌++◌, arith, some_inj, inl, inr, Bool-cases, length, length-append, get_elem?, filter,
  filter-append, contains, contains-append, Text,
}
use memo_build.Prelude.Results.{Result, ok, err, Action, ◌>>◌, >>=-eq-ok}
use mathlib.Core.List.{flatten}
use memo_build.Graph.{Node}
use memo_build.Executor.Interface.{Services}
use memo_build.Executor.{
  Options, Build, execute_node_logic, record_result, record_step, execute_entry,
  execute_parallel_nodes, execute_one, execute_sequential_nodes, execute_level, execute_levels,
  is_parallel,
}
use memo_build.Executor.Counts.{contains-partition}
use memo_build.Executor.Stock.{NodeLaws, Run, Run-refl, Run-trans, hash_of, hash_at, hash_at-finish}
use memo_build.Executor.Stock.Futures.{execute_parallel_nodes-Run}

-- Whether a node's run was a hit.
abbrev cached : Result (Bool × Bool) → Bool
cached (ok (dirty, hit)) = hit
cached (err e) = false

length-filter-partition :
    (q p : ℕ → Bool) (xs : List ℕ)
    → length (filter q xs)
      ≡ length (filter q (filter p xs)) + length (filter q (filter (λ x. not (p x)) xs))
length-filter-partition q p [] = refl
length-filter-partition q p (x ∷ xs) = elim (Bool-cases (p x)) [
  | inl e ↦ rw e (ground (arith, length-filter-partition q p xs))
  | inr e ↦ rw e (ground (arith, length-filter-partition q p xs))
]

module _ {S : Type 0} (services : Services S) (options : Options) (Held : Text → S → Type 0)
    {lasting : Bool} (laws : NodeLaws services options Held lasting) where
  record_step-Run :
      (id : ℕ) (node : Node) (b : Build S) (result : Result (Bool × Bool)) (s : S)
      → get_elem? b.nodes id ≡ some node
      → ((k : Text) → Held k b.outside → Held k s)
      → ((r : Bool × Bool) → lasting ≡ true → result ≡ ok r → Held node.hash s)
      → (lasting ≡ true → Held node.hash b.outside → result ≡ ok (false, true))
      → (record_step services options id result (record b { outside = s })).0 ≡ ok tt
      → Run Held lasting
          (id ∷ [])
          b
          (record_step services options id result (record b { outside = s })).1
  unfolding record_step record_result
  record_step-Run id node b (err x) s at keeps fills hits e = cc
  record_step-Run id node b (ok (dirty, hit)) s at keeps fills hits e =
      let here = ap hash_of at in
      record {
        kept = keeps;
        hashes = λ j. hash_at-finish _ _ (dirty, hit) b.nodes id j;
        stocked = λ l j h m eq.
            let found : hash_at b.nodes id ≡ some h = ap (hash_at b.nodes) (ground arith) ∙ eq in
            subst (λ k. Held k s) (some_inj (sym here ∙ found)) (fills (dirty, hit) l refl);
        counted = λ l known all. elim (Bool-cases (known node.hash)) [
          | inl old ↦ rw (here, old, ap cached (hits l (all node.hash old))) (omega arith)
          | inr new ↦ rw (here, new) (ground arith)
        ];
      }

  execute_entry-Run :
      (id : ℕ) (entry : Option Node) (b : Build S)
      → get_elem? b.nodes id ≡ entry
      → (execute_entry services options id entry b).0 ≡ ok tt
      → Run Held lasting (id ∷ []) b (execute_entry services options id entry b).1
  unfolding execute_entry
  execute_entry-Run id none b at e = cc
  execute_entry-Run id (some node) b at e =
      let (result, s) = execute_node_logic services options node b.outside in
      record_step-Run id node b result s at (laws.keeps node b.outside) (laws.fills node b.outside)
        (laws.hits node b.outside) e

  pub execute_one-Run :
      (id : ℕ) (b : Build S)
      → (execute_one services options id b).0 ≡ ok tt
      → Run Held lasting (id ∷ []) b (execute_one services options id b).1
  unfolding execute_one
  execute_one-Run id b = execute_entry-Run id (get_elem? b.nodes id) b refl

  >>-Run :
      (m n : Action (Build S) (Unit {0})) (is js ks : List ℕ) (b : Build S)
      → ((p : ℕ → Bool) → length (filter p ks) ≡ length (filter p is) + length (filter p js))
      → ((j : ℕ) → contains ks j ≡ (contains is j || contains js j))
      → ((m b).0 ≡ ok tt → Run Held lasting is b (m b).1)
      → ((n (m b).1).0 ≡ ok tt → Run Held lasting js (m b).1 (n (m b).1).1)
      → ((m >> n) b).0 ≡ ok tt
      → Run Held lasting ks b ((m >> n) b).1
  >>-Run m n is js ks b size mem hm hn e =
      let (_, first, rest) = >>=-eq-ok m (λ _. n) b e in
      rw first (Run-trans is js ks size mem (hm first) (hn rest))

  execute_sequential_nodes-Run :
      (ids : List ℕ) (b : Build S)
      → (execute_sequential_nodes services options ids b).0 ≡ ok tt
      → Run Held lasting ids b (execute_sequential_nodes services options ids b).1
  unfolding execute_sequential_nodes
  execute_sequential_nodes-Run [] b e = Run-refl b
  execute_sequential_nodes-Run (id ∷ ids) b e =
      >>-Run (execute_one services options id) (execute_sequential_nodes services options ids)
        (id ∷ []) ids (id ∷ ids) b (λ p. ground arith) (λ j. ground arith) (execute_one-Run id b)
        (execute_sequential_nodes-Run ids (execute_one services options id b).1) e

  pub execute_level-Run :
      (level : List ℕ) (b : Build S)
      → (execute_level services options level b).0 ≡ ok tt
      → Run Held lasting level b (execute_level services options level b).1
  unfolding execute_level
  execute_level-Run level b e =
      let p = is_parallel services options b.nodes in
      >>-Run (execute_parallel_nodes services options (filter p level))
        (execute_sequential_nodes services options (filter (λ id. not (p id)) level))
        (filter p level) (filter (λ id. not (p id)) level) level b
        (λ q. length-filter-partition q p level) (contains-partition p level)
        (execute_parallel_nodes-Run services options Held laws (filter p level) b)
        (execute_sequential_nodes-Run (filter (λ id. not (p id)) level) _) e

  pub execute_levels-Run :
      (groups : List (List ℕ)) (b : Build S)
      → (execute_levels services options groups b).0 ≡ ok tt
      → Run Held lasting (flatten groups) b (execute_levels services options groups b).1
  unfolding execute_levels flatten
  execute_levels-Run [] b e = Run-refl b
  execute_levels-Run (level ∷ groups) b e =
      >>-Run (execute_level services options level) (execute_levels services options groups) level
        (flatten groups) (level ++ flatten groups) b
        (λ p.
          ap length (filter-append p level (flatten groups))
          ∙ length-append (filter p level) (filter p (flatten groups)))
        (contains-append level (flatten groups)) (execute_level-Run level b)
        (execute_levels-Run groups _) e
