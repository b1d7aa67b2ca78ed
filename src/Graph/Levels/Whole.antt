-- ===== src/Graph/Levels/Whole.antt =====
-- The levels together: every node is in one of them, and there are as many entries as nodes.
use mathlib.Core.List.{flatten}
use memo_build.Prelude.{
  ℕ, zero, suc, ◌+◌, ◌<◌, ◌≡◌, refl, ap, ◌&&◌, ◌||◌, some, List, [], ◌∷◌, ◌++◌, arith, ltb, leb,
  ◌==◌, length, length-append, get_or, set, length-set, replicate, length-replicate, contains,
  contains-append,
}
use memo_build.Graph.{BuildGraph}
use memo_build.Graph.Levels.{maximum, push_all, group, levels}
use memo_build.Graph.Levels.Groups.{AllBelow, maximum-AllBelow, node_levels-returns}

module _ (id : ℕ) where
  -- One push, seen from the levels together.
  length-flatten-push :
      (result : List (List ℕ)) (k : ℕ)
      → k < length result
      → length (flatten (set result k (get_or result k [] ++ id ∷ [])))
        ≡ length (flatten result) + 1
  unfolding flatten
  length-flatten-push [] k lt = elim lt [ ]
  length-flatten-push (r ∷ result) zero lt = omega (
    arith,
    length-append (r ++ id ∷ []) (flatten result),
    length-append r (id ∷ []),
    length-append r (flatten result),
  )
  length-flatten-push (r ∷ result) (suc k) lt = omega (
    arith,
    length-append r (flatten (set result k (get_or result k [] ++ id ∷ []))),
    length-append r (flatten result),
    length-flatten-push result k (omega arith),
  )

  contains-flatten-push :
      (x : ℕ) (result : List (List ℕ)) (k : ℕ)
      → k < length result
      → contains (flatten (set result k (get_or result k [] ++ id ∷ []))) x
        ≡ (contains (flatten result) x || id == x)
  unfolding flatten
  contains-flatten-push x [] k lt = elim lt [ ]
  contains-flatten-push x (r ∷ result) zero lt = ground (
    arith,
    contains-append (r ++ id ∷ []) (flatten result) x,
    contains-append r (id ∷ []) x,
    contains-append r (flatten result) x,
  )
  contains-flatten-push x (r ∷ result) (suc k) lt = ground (
    arith,
    contains-append r (flatten (set result k (get_or result k [] ++ id ∷ []))) x,
    contains-append r (flatten result) x,
    contains-flatten-push x result k,
  )

push_all-flatten :
    (ls : List ℕ) (result : List (List ℕ)) (id : ℕ)
    → AllBelow (length result) ls
    → (length (flatten (push_all result id ls)) ≡ length (flatten result) + length ls)
      × ((x : ℕ)
          → contains (flatten (push_all result id ls)) x
            ≡ (contains (flatten result) x || leb id x && ltb x (id + length ls)))
unfolding push_all
push_all-flatten [] result id h = (omega arith, λ x. ground arith)
push_all-flatten (k ∷ ls) result id h =
    let pushed = set result k (get_or result k [] ++ id ∷ []) in
    let (size, mem) = push_all-flatten ls pushed (id + 1) (rw length-set h.1) in
    (
      omega (arith, size, length-flatten-push id result k h.0),
      λ x. ground (arith, mem x, contains-flatten-push id x result k h.0),
    )

flatten-replicate : (n : ℕ) → flatten (replicate {A = List ℕ} n []) ≡ []
unfolding flatten
flatten-replicate zero = refl
flatten-replicate (suc n) = flatten-replicate n

-- For every graph the levels hold each index of a node, no other, and as many entries as there are
-- nodes: each node once.
pub levels-whole :
    (graph : BuildGraph)
    → (groups : List (List ℕ)) × (levels graph ≡ some groups)
      × (length (flatten groups) ≡ length graph.nodes)
      × ((x : ℕ) → contains (flatten groups) x ≡ ltb x (length graph.nodes))
unfolding levels group
levels-whole graph =
    let (ls, e, size) = node_levels-returns graph in
    let none_yet = flatten-replicate (maximum ls + 1) in
    let (total, mem) =
      push_all-flatten ls (replicate (maximum ls + 1) []) 0
        (rw length-replicate (maximum-AllBelow ls)) in
    (
      group ls,
      rw e,
      omega (arith, total, size, ap length none_yet),
      λ x. ground (arith, mem x, size, ap (λ (l : List ℕ). contains l x) none_yet),
    )
