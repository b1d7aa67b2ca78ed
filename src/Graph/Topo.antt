-- ===== src/Graph/Topo.antt =====
-- src/graph.rs, `BuildGraph::topological_order` and `dfs_topo`.
pub mod Visits
pub mod Search
pub mod Order
use memo_build.Prelude.{
  ℕ, zero, suc, ◌+◌, Bool, false, true, not, ◌&&◌, Option, none, some, List, [], ◌∷◌, ◌++◌, reverse,
  ltb, if◌then◌else◌, length, get_elem?, get_or, set, replicate, ◌>>=◌,
}
use memo_build.Graph.{Node, BuildGraph}

pub record Dfs : Type 0 where
  pub visited : List Bool
  pub stack : List ℕ

-- `visited[i]`; the callers keep `i` in range.
abbrev pub seen : Dfs → ℕ → Bool
seen st i = get_or st.visited i false

abbrev pub mark : Dfs → ℕ → Dfs
mark st i = record st { visited = set st.visited i true }

abbrev pub push : Dfs → ℕ → Dfs
push st i = record st { stack = st.stack ++ i ∷ [] }

-- The loop over the dependencies of a node; `dfs` is the recursive call of `dfs_topo`.
unfoldable pub visit_deps : (ℕ → Dfs → Option Dfs) → ℕ → List ℕ → Dfs → Option Dfs
visit_deps dfs n [] st = some st
visit_deps dfs n (dep ∷ deps) st = do
  st' ← if ltb dep n && not (seen st dep) then dfs dep st else some st
  visit_deps dfs n deps st'

-- The recursion takes fuel; `none` is a panic on an index out of range, or the end of the fuel.
unfoldable pub dfs_topo : ℕ → List Node → ℕ → Dfs → Option Dfs
dfs_topo zero nodes node st = none
dfs_topo (suc fuel) nodes node st = do
  entry ← get_elem? nodes node
  st' ← visit_deps (dfs_topo fuel nodes) (length nodes) entry.deps (mark st node)
  some (push st' node)

-- The loop over all roots, by the rounds that are left.
unfoldable pub visit_roots : (ℕ → Dfs → Option Dfs) → ℕ → ℕ → Dfs → Option Dfs
visit_roots dfs zero i st = some st
visit_roots dfs (suc rounds) i st = do
  st' ← if not (seen st i) then dfs i st else some st
  visit_roots dfs rounds (i + 1) st'

abbrev pub unvisited_all : ℕ → Dfs
unvisited_all n = record { visited = replicate n false; stack = [] }

-- The order that the code returns: the reverse of the stack.
unfoldable pub topological_order : BuildGraph → Option (List ℕ)
topological_order graph = do
  let n = length graph.nodes
  st ← visit_roots (dfs_topo n graph.nodes) n 0 (unvisited_all n)
  some (reverse st.stack)
