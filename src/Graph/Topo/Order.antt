-- ===== src/Graph/Topo/Order.antt =====
-- `topological_order` as its callers see it: it always returns, with every index once, and, where the
-- dependencies have no cycle, with every node in front of the nodes that it depends on.
use memo_build.Prelude.{
  ℕ, zero, suc, ◌+◌, ◌≤◌, ◌<◌, ◌≡◌, refl, ◌∙◌, Bool, true, false, not, Option, some, List, [], ◌∷◌,
  reverse, inl, inr, arith, ltb, ◌==◌, if◌then◌else◌, Bool-cases, length, get_or, length-replicate,
  get_or-replicate, contains, contains-reverse, distinct, distinct-reverse, some_inj,
}
use memo_build.Graph.{Node, BuildGraph}
use memo_build.Graph.Topo.{Dfs, seen, dfs_topo, visit_roots, unvisited_all, topological_order}
use memo_build.Graph.Topo.Visits.{unvisited, IsGood, DependentsFirst, IsRanked, Visited, Searches}
use memo_build.Graph.Topo.Search.{dfs_topo-Searches}

unvisited-le : (vs : List Bool) → unvisited vs ≤ length vs
unvisited-le [] = omega arith
unvisited-le (v ∷ vs) = ground (arith, unvisited-le vs)

-- Between two roots all that is visited is on the stack.
abbrev IsIdle : Dfs → Type 0
IsIdle st = (y : ℕ) → seen st y ≡ true → contains st.stack y ≡ true

record Rooted (nodes : List Node) (i j : ℕ) (st : Dfs) (result : Option Dfs) : Type 0 where
  after : Dfs
  returns : result ≡ some after
  good : IsGood (length nodes) after
  idle : IsIdle after
  kept : (x : ℕ) → seen st x ≡ true → seen after x ≡ true
  done : (x : ℕ) → i ≤ x → x < j → seen after x ≡ true
  ordered :
      (rank : ℕ → ℕ)
      → IsRanked rank nodes
      → DependentsFirst nodes (reverse st.stack)
      → DependentsFirst nodes (reverse after.stack)

module _ (nodes : List Node) (dfs : ℕ → Dfs → Option Dfs)
    (searches : Searches nodes (length nodes) dfs) where
  visit_root :
      (i : ℕ) (st : Dfs)
      → IsGood (length nodes) st
      → IsIdle st
      → i < length nodes
      → Rooted nodes i (suc i) st (if not (seen st i) then dfs i st else some st)
  visit_root i st good idle lt = elim (Bool-cases (seen st i)) [
    | inl old ↦ rw old (record {
      after = st;
      returns = refl;
      good = good;
      idle = idle;
      kept = λ x h. h;
      done = λ x lo hi. let e : x ≡ i = omega arith in rw e old;
      ordered = λ rank ranked first. first;
    })
    | inr new ↦
        let v : Visited nodes i st (dfs i st) =
          searches i st good lt new (omega (arith, unvisited-le st.visited, good.size)) in
        rw new (record {
          after = v.after;
          returns = v.returns;
          good = v.good;
          idle = λ y h. ground (arith, v.grows.stacked y, idle y);
          kept = v.grows.kept;
          done = λ x lo hi. let e : x ≡ i = omega arith in rw e v.done;
          ordered = λ rank ranked. v.ordered rank ranked (λ y h _. idle y h);
        })
  ]

  visit_roots-Rooted :
      (rounds i : ℕ) (st : Dfs)
      → IsGood (length nodes) st
      → IsIdle st
      → i + rounds ≤ length nodes
      → Rooted nodes i (i + rounds) st (visit_roots dfs rounds i st)
  unfolding visit_roots
  visit_roots-Rooted zero i st good idle le = record {
    after = st;
    returns = refl;
    good = good;
    idle = idle;
    kept = λ x h. h;
    done = λ x lo hi. absurd (omega arith);
    ordered = λ rank ranked first. first;
  }
  visit_roots-Rooted (suc rounds) i st good idle le =
      let v = visit_root i st good idle (omega arith) in
      let w = visit_roots-Rooted rounds (i + 1) v.after v.good v.idle (omega arith) in
      rw v.returns (record {
        after = w.after;
        returns = w.returns;
        good = w.good;
        idle = w.idle;
        kept = λ x h. w.kept x (v.kept x h);
        done = λ x lo hi. elim (Bool-cases (x == i)) [
          | inl here ↦ w.kept x (v.done x lo (ground arith))
          | inr later ↦ w.done x (ground arith) (omega arith)
        ];
        ordered = λ rank ranked first. w.ordered rank ranked (v.ordered rank ranked first);
      })

unvisited_all-IsGood : (n : ℕ) → IsGood n (unvisited_all n)
unvisited_all-IsGood n = record { size = length-replicate n false; marked = λ x h. cc; once = refl }

unvisited_all-IsIdle : (n : ℕ) → IsIdle (unvisited_all n)
unvisited_all-IsIdle n y h = cc (get_or-replicate n y false)

-- What the order is: every index below the number of nodes, once, and nothing else.
pub record IsListing (n : ℕ) (order : List ℕ) : Type 0 where
  pub every : (x : ℕ) → contains order x ≡ ltb x n
  pub once : distinct order ≡ true

get_or-out : (vs : List Bool) (x : ℕ) → get_or vs x false ≡ true → x < length vs
get_or-out [] x h = cc
get_or-out (v ∷ vs) zero h = omega arith
get_or-out (v ∷ vs) (suc x) h = omega (arith, get_or-out vs x h)

module _ (graph : BuildGraph) where
  run : Rooted graph.nodes 0 (0 + length graph.nodes) (unvisited_all (length graph.nodes)) (
      visit_roots
        (dfs_topo (length graph.nodes) graph.nodes)
        (length graph.nodes)
        0
        (unvisited_all (length graph.nodes)))
  run =
      let n = length graph.nodes in
      visit_roots-Rooted graph.nodes (dfs_topo n graph.nodes) (dfs_topo-Searches graph.nodes n) n 0
        (unvisited_all n) (unvisited_all-IsGood n) (unvisited_all-IsIdle n) (omega arith)

  -- The search never panics and never runs out of fuel: for every graph, cycles and dependencies out of
  -- range included, `topological_order` returns a list that holds each index of a node once and no other.
  pub topological_order-IsListing :
      (order : List ℕ) × (topological_order graph ≡ some order)
      × IsListing (length graph.nodes) order
  unfolding topological_order
  topological_order-IsListing = (
    reverse run.after.stack,
    rw run.returns,
    record {
      every = λ x. ground (
        arith,
        contains-reverse run.after.stack x,
        run.good.marked x,
        run.good.size,
        run.idle x,
        λ (h : x < 0 + length graph.nodes). run.done x (omega arith) h,
        get_or-out run.after.visited x,
      );
      once = distinct-reverse run.after.stack ∙ run.good.once;
    },
  )

  -- If the dependencies have no cycle, each node comes in front of the nodes that it depends on.
  pub topological_order-DependentsFirst :
      (order : List ℕ) (rank : ℕ → ℕ)
      → topological_order graph ≡ some order
      → IsRanked rank graph.nodes
      → DependentsFirst graph.nodes order
  unfolding topological_order
  topological_order-DependentsFirst order rank e ranked =
      let same : reverse run.after.stack ≡ order = some_inj (rw run.returns at e) in
      rw (← same) (run.ordered rank ranked tt)
