-- ===== src/Graph/Topo/Visits.antt =====
-- What one run of `dfs_topo`, of its loop over dependencies and of the loop over roots does to the
-- search state: it returns within its fuel, visits exactly what it pushes, and pushes a node once.
use memo_build.Prelude.{
  ℕ, zero, suc, ◌+◌, ◌≤◌, ◌<◌, ◌≡◌, refl, Bool, true, false, not, ◌&&◌, ◌||◌, Option, some, List,
  [], ◌∷◌, reverse, arith, if◌then◌else◌, length, get_or, set, contains, distinct,
}
use memo_build.Graph.{Node, deps_of}
use memo_build.Graph.Topo.{Dfs, seen}

-- The number of nodes still to visit.
abbrev pub unvisited : List Bool → ℕ
unvisited [] = 0
unvisited (v ∷ vs) = (if v then 0 else 1) + unvisited vs

pub unvisited-set :
    (vs : List Bool) (i : ℕ)
    → i < length vs
    → get_or vs i false ≡ false
    → unvisited (set vs i true) + 1 ≡ unvisited vs
unvisited-set [] i h e = elim h [ ]
unvisited-set (v ∷ vs) zero h e = ground arith
unvisited-set (v ∷ vs) (suc i) h e = ground (arith, unvisited-set vs i)

pub unvisited_mono :
    (vs ws : List Bool)
    → length ws ≡ length vs
    → ((i : ℕ) → get_or vs i false ≡ true → get_or ws i false ≡ true)
    → unvisited ws ≤ unvisited vs
unvisited_mono [] [] e h = omega arith
unvisited_mono [] (w ∷ ws) e h = omega arith
unvisited_mono (v ∷ vs) [] e h = omega arith
unvisited_mono (v ∷ vs) (w ∷ ws) e h =
    ground (arith, h 0, unvisited_mono vs ws (omega arith) (λ i. h (suc i)))

-- What is on the stack is visited, and stands there once.
pub record IsGood (n : ℕ) (st : Dfs) : Type 0 where
  pub size : length st.visited ≡ n
  pub marked : (x : ℕ) → contains st.stack x ≡ true → seen st x ≡ true
  pub once : distinct st.stack ≡ true

-- From `st` to `st'` nothing is forgotten, and what is newly visited is what is newly on the stack.
pub record Grows (st st' : Dfs) : Type 0 where
  pub size : length st'.visited ≡ length st.visited
  pub kept : (x : ℕ) → seen st x ≡ true → seen st' x ≡ true
  pub stacked :
      (x : ℕ) → contains st'.stack x ≡ (contains st.stack x || (seen st' x && not (seen st x)))

pub Grows-refl : (st : Dfs) → Grows st st
Grows-refl st = record { size = refl; kept = λ x h. h; stacked = λ x. ground arith }

pub Grows-trans : {s t u : Dfs} → Grows s t → Grows t u → Grows s u
Grows-trans g h = record {
  size = omega (arith, g.size, h.size);
  kept = λ x e. h.kept x (g.kept x e);
  stacked = λ x. ground (arith, g.stacked x, h.stacked x, g.kept x, h.kept x);
}

pub Grows-unvisited : {s t : Dfs} → Grows s t → unvisited t.visited ≤ unvisited s.visited
Grows-unvisited {s} {t} g = unvisited_mono s.visited t.visited g.size g.kept

-- Every dependency in range stands behind its dependent.
abbrev pub DepsIn : List Node → ℕ → List ℕ → Type 0
DepsIn nodes x rest =
    (d : ℕ) → contains (deps_of nodes x) d ≡ true → d < length nodes → contains rest d ≡ true

abbrev pub DependentsFirst : List Node → List ℕ → Type 0
DependentsFirst nodes [] = Unit
DependentsFirst nodes (x ∷ rest) = DepsIn nodes x rest × DependentsFirst nodes rest

-- The dependencies have no cycle: `rank` falls along each of them.
abbrev pub IsRanked : (ℕ → ℕ) → List Node → Type 0
IsRanked rank nodes =
    (x d : ℕ) → contains (deps_of nodes x) d ≡ true → d < length nodes → rank d < rank x

-- No node of a rank below `k` is being visited.
abbrev pub Ready : (ℕ → ℕ) → ℕ → Dfs → Type 0
Ready rank k st = (y : ℕ) → seen st y ≡ true → rank y < k → contains st.stack y ≡ true

pub Ready-Grows : (rank : ℕ → ℕ) (k : ℕ) {s t : Dfs} → Grows s t → Ready rank k s → Ready rank k t
Ready-Grows rank k g h y e le = ground (arith, g.stacked y, h y)

pub record Visited (nodes : List Node) (node : ℕ) (st : Dfs) (result : Option Dfs) : Type 0 where
  pub after : Dfs
  pub returns : result ≡ some after
  pub good : IsGood (length nodes) after
  pub grows : Grows st after
  pub done : seen after node ≡ true
  pub ordered :
      (rank : ℕ → ℕ)
      → IsRanked rank nodes
      → Ready rank (suc (rank node)) st
      → DependentsFirst nodes (reverse st.stack)
      → DependentsFirst nodes (reverse after.stack)

pub record VisitedAll (nodes : List Node) (deps : List ℕ) (st : Dfs) (result : Option Dfs)
    : Type 0 where
  pub after : Dfs
  pub returns : result ≡ some after
  pub good : IsGood (length nodes) after
  pub grows : Grows st after
  pub done : (d : ℕ) → contains deps d ≡ true → d < length nodes → seen after d ≡ true
  pub ordered :
      (rank : ℕ → ℕ) (k : ℕ)
      → IsRanked rank nodes
      → ((d : ℕ) → contains deps d ≡ true → d < length nodes → rank d < k)
      → Ready rank k st
      → DependentsFirst nodes (reverse st.stack)
      → DependentsFirst nodes (reverse after.stack)

-- A search from a node that is not visited, with fuel for all that are not.
abbrev pub Searches : List Node → ℕ → (ℕ → Dfs → Option Dfs) → Type 0
Searches nodes fuel dfs =
    (node : ℕ) (st : Dfs)
    → IsGood (length nodes) st
    → node < length nodes
    → seen st node ≡ false
    → unvisited st.visited ≤ fuel
    → Visited nodes node st (dfs node st)
