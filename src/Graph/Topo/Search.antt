-- ===== src/Graph/Topo/Search.antt =====
-- `dfs_topo` by induction on its fuel, with its loop over dependencies as a lemma of its own.
use memo_build.Prelude.{
  ℕ, zero, suc, ◌≤◌, ◌<◌, ◌≡◌, refl, ◌∙◌, true, false, not, ◌&&◌, ◌||◌, Option, some, List, [], ◌∷◌,
  inl, inr, arith, ltb, ◌==◌, if◌then◌else◌, Bool-cases, length, get_or-set, length-set,
  get_elem?-in_range, contains, contains-append, contains-reverse, distinct-snoc,
}
use mathlib.Core.List.{reverse-append}
use memo_build.Graph.{Node, deps_of}
use memo_build.Graph.Topo.{Dfs, seen, mark, push, visit_deps, dfs_topo}
use memo_build.Graph.Topo.Visits.{
  unvisited, unvisited-set, IsGood, Grows-refl, Grows-trans, Grows-unvisited, Ready, Ready-Grows,
  Visited, VisitedAll, Searches,
}

-- One dependency: it is searched only if it is in range and not visited.
module _ (nodes : List Node) (fuel : ℕ) (dfs : ℕ → Dfs → Option Dfs)
    (searches : Searches nodes fuel dfs) where
  visit_one :
      (dep : ℕ) (st : Dfs)
      → IsGood (length nodes) st
      → unvisited st.visited ≤ fuel
      → VisitedAll nodes
          (dep ∷ [])
          st
          (if ltb dep (length nodes) && not (seen st dep) then dfs dep st else some st)
  visit_one dep st good enough = elim (Bool-cases (ltb dep (length nodes) && not (seen st dep))) [
    | inl e ↦
        let v : Visited nodes dep st (dfs dep st) =
          searches dep st good (ground arith) (ground arith) enough in
        rw e (record {
          after = v.after;
          returns = v.returns;
          good = v.good;
          grows = v.grows;
          done = λ d is_dep lt. ground (arith, v.done);
          ordered = λ rank k ranked low ready first.
              v.ordered rank ranked
                (λ y sy le. ready y sy (omega (arith, low dep (ground arith) (ground arith))))
                first;
        })
    | inr e ↦ rw e (record {
      after = st;
      returns = refl;
      good = good;
      grows = Grows-refl st;
      done = λ d is_dep lt. ground arith;
      ordered = λ rank k ranked low ready first. first;
    })
  ]

  visit_deps-VisitedAll :
      (deps : List ℕ) (st : Dfs)
      → IsGood (length nodes) st
      → unvisited st.visited ≤ fuel
      → VisitedAll nodes deps st (visit_deps dfs (length nodes) deps st)
  unfolding visit_deps
  visit_deps-VisitedAll [] st good enough = record {
    after = st;
    returns = refl;
    good = good;
    grows = Grows-refl st;
    done = λ d is_dep lt. ground arith;
    ordered = λ rank k ranked low ready first. first;
  }
  visit_deps-VisitedAll (dep ∷ deps) st good enough =
      let v = visit_one dep st good enough in
      let w = visit_deps-VisitedAll deps v.after v.good (omega (arith, Grows-unvisited v.grows)) in
      rw v.returns (record {
        after = w.after;
        returns = w.returns;
        good = w.good;
        grows = Grows-trans v.grows w.grows;
        done = λ d is_dep lt. ground (arith, v.done d, w.done d, w.grows.kept d);
        ordered = λ rank k ranked low ready first.
            w.ordered rank k ranked (λ d m. low d (ground arith)) (Ready-Grows rank k v.grows ready)
              (v.ordered rank k ranked (λ d m. low d (ground arith)) ready first);
      })

module _ (nodes : List Node) (node : ℕ) (st : Dfs) (good : IsGood (length nodes) st)
    (in_range : node < length nodes) (fresh : seen st node ≡ false) where
  seen-mark : (x : ℕ) → seen (mark st node) x ≡ (node == x || seen st x)
  seen-mark x = ground (arith, get_or-set st.visited node x true false, good.size)

  mark-IsGood : IsGood (length nodes) (mark st node)
  mark-IsGood = record {
    size = omega (arith, length-set st.visited node true, good.size);
    marked = λ x h. ground (arith, seen-mark x, good.marked x);
    once = good.once;
  }

  absent : contains st.stack node ≡ false
  absent = ground (arith, good.marked node)

  -- The node goes on the stack after its dependencies.
  pub push-Visited :
      (result : Option Dfs) (v : VisitedAll nodes (deps_of nodes node) (mark st node) result)
      → Visited nodes node st (some (push v.after node))
  push-Visited result v = record {
    after = push v.after node;
    returns = refl;
    good = record {
      size = v.good.size;
      marked = λ x h. ground (
        arith,
        contains-append v.after.stack (node ∷ []) x,
        v.good.marked x,
        v.grows.kept node,
        seen-mark node,
      );
      once = ground (
        arith,
        distinct-snoc v.after.stack node,
        v.good.once,
        v.grows.stacked node,
        seen-mark node,
        absent,
      );
    };
    grows = record {
      size = omega (arith, v.grows.size, length-set st.visited node true);
      kept = λ x h. ground (arith, seen-mark x, v.grows.kept x);
      stacked = λ x. ground (
        arith,
        contains-append v.after.stack (node ∷ []) x,
        v.grows.stacked x,
        v.grows.kept x,
        seen-mark x,
        absent,
      );
    };
    done = ground (arith, v.grows.kept node, seen-mark node);
    ordered = λ rank ranked ready first.
        let low : Ready rank (rank node) (mark st node) =
          λ y e le. ground (arith, ready y, seen-mark y) in
        let placed : Ready rank (rank node) v.after = Ready-Grows rank (rank node) v.grows low in
        rw reverse-append (
          λ d is_dep lt.
              contains-reverse v.after.stack d
              ∙ placed d (v.done d is_dep lt) (ranked node d is_dep lt),
          v.ordered rank (rank node) ranked (ranked node) low first,
        );
  }

-- With fuel for every node not yet visited the search returns.
pub dfs_topo-Searches : (nodes : List Node) (fuel : ℕ) → Searches nodes fuel (dfs_topo fuel nodes)
unfolding dfs_topo
dfs_topo-Searches nodes zero node st good in_range fresh enough =
    absurd (omega (arith, unvisited-set st.visited node (omega (arith, good.size)) fresh))
dfs_topo-Searches nodes (suc fuel) node st good in_range fresh enough =
    let (entry, found) = get_elem?-in_range nodes node in_range in
    let marked : IsGood (length nodes) (mark st node) =
      mark-IsGood nodes node st good in_range fresh in
    let same : deps_of nodes node ≡ entry.deps = rw found in
    let left = unvisited-set st.visited node (omega (arith, good.size)) fresh in
    let v =
      visit_deps-VisitedAll nodes fuel (dfs_topo fuel nodes) (dfs_topo-Searches nodes fuel)
        (deps_of nodes node) (mark st node) marked (omega (arith, left, enough)) in
    rw (found, ← same, v.returns) (push-Visited nodes node st good in_range fresh _ v)
