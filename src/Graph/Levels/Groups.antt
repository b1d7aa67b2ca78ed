-- ===== src/Graph/Levels/Groups.antt =====
-- The grouping: each index stands in the level that it was assigned, and only there.
use memo_build.Prelude.{
  ℕ, zero, suc, ◌+◌, ◌-◌, ◌≤◌, ◌<◌, ◌≡◌, refl, ◌∙◌, ◌&&◌, ◌||◌, some, List, [], ◌∷◌, ◌++◌, arith,
  ltb, leb, ◌==◌, if◌then◌else◌, length, get_or, set, get_or-set, length-set, replicate,
  length-replicate, get_or-replicate, contains, contains-append,
}
use memo_build.Graph.{BuildGraph}
use memo_build.Graph.Topo.Order.{topological_order-IsListing}
use memo_build.Graph.Levels.{assign_levels, maximum, push_all, group, node_levels, levels}

-- Every level of the list is below `bound`.
abbrev pub AllBelow : ℕ → List ℕ → Type 0
AllBelow bound [] = Unit
AllBelow bound (l ∷ ls) = (l < bound) × AllBelow bound ls

AllBelow-mono : (a b : ℕ) (ls : List ℕ) → a ≤ b → AllBelow a ls → AllBelow b ls
AllBelow-mono a b [] le h = tt
AllBelow-mono a b (l ∷ ls) le h = (omega arith, AllBelow-mono a b ls le h.1)

pub maximum-AllBelow : (ls : List ℕ) → AllBelow (maximum ls + 1) ls
unfolding maximum
maximum-AllBelow [] = tt
maximum-AllBelow (l ∷ ls) =
    (omega arith, AllBelow-mono (maximum ls + 1) _ ls (omega arith) (maximum-AllBelow ls))

get_or-cons :
    (k : ℕ) (ls : List ℕ) (n : ℕ)
    → get_or (k ∷ ls) n 0 ≡ (if n == 0 then k else get_or ls (n - 1) 0)
get_or-cons k ls zero = refl
get_or-cons k ls (suc n) = ground arith

module _ (l x : ℕ) where
  -- One push, seen from level `l` and index `x`.
  push_one :
      (result : List (List ℕ)) (k id : ℕ)
      → k < length result
      → contains (get_or (set result k (get_or result k [] ++ id ∷ [])) l []) x
        ≡ (contains (get_or result l []) x || k == l && id == x)
  push_one result k id lt = ground (
    arith,
    get_or-set result k l (get_or result k [] ++ id ∷ []) [],
    contains-append (get_or result k []) (id ∷ []) x,
  )

  push_all_lem :
      (ls : List ℕ) (result : List (List ℕ)) (id : ℕ)
      → AllBelow (length result) ls
      → contains (get_or (push_all result id ls) l []) x ≡ (
          contains (get_or result l []) x
          || leb id x && ltb x (id + length ls) && get_or ls (x - id) 0 == l)
  unfolding push_all
  push_all_lem [] result id h = ground arith
  push_all_lem (k ∷ ls) result id h =
      let pushed = set result k (get_or result k [] ++ id ∷ []) in
      ground (
        arith,
        push_one result k id h.0,
        push_all_lem ls pushed (id + 1) (rw length-set h.1),
        get_or-cons k ls (x - id),
      )

  -- Index `x` is in level `l` exactly if it is in range and `l` was assigned to it.
  pub group_lem :
      (ls : List ℕ)
      → contains (get_or (group ls) l []) x ≡ (ltb x (length ls) && get_or ls x 0 == l)
  unfolding group
  group_lem ls = ground (
    arith,
    push_all_lem ls (replicate (maximum ls + 1) []) 0 (rw length-replicate (maximum-AllBelow ls)),
    get_or-replicate {A = List ℕ} (maximum ls + 1) l [],
  )

module _ (graph : BuildGraph) where
  length-assign_levels :
      (order ls : List ℕ) → length (assign_levels graph.nodes ls order) ≡ length ls
  unfolding assign_levels
  length-assign_levels [] ls = refl
  length-assign_levels (x ∷ rest) ls = length-assign_levels rest _ ∙ length-set ls x _

  pub node_levels-returns :
      (ls : List ℕ) × (node_levels graph ≡ some ls) × (length ls ≡ length graph.nodes)
  unfolding node_levels
  node_levels-returns =
      let (order, e, _) = topological_order-IsListing graph in
      (
        assign_levels graph.nodes (replicate (length graph.nodes) 0) order,
        rw e,
        length-assign_levels order _ ∙ length-replicate (length graph.nodes) 0,
      )

  -- For every graph `levels` returns, and each node stands in one level only: a level `l` holds the
  -- indices of the nodes that `node_levels` gives `l`, and nothing else.
  pub levels-partition :
      (ls : List ℕ) × (groups : List (List ℕ)) × (node_levels graph ≡ some ls)
      × (levels graph ≡ some groups)
      × ((l x : ℕ)
          → contains (get_or groups l []) x ≡ (ltb x (length graph.nodes) && get_or ls x 0 == l))
  unfolding levels
  levels-partition =
      let (ls, e, size) = node_levels-returns in
      (ls, group ls, e, rw e, λ l x. rw (← size) (group_lem l x ls))
