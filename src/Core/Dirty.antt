-- ===== src/Core/Dirty.antt =====
-- `propagate_dirty` marks what depends on a dirty node, however far away.
use memo_build.Prelude.{
  ℕ, zero, suc, ◌+◌, ◌<◌, ◌≡◌, refl, ◌∙◌, ◌↔◌, true, ◌&&◌, ◌||◌, List, [], ◌∷◌, inl, inr, arith,
  ltb, ◌==◌, Bool-cases, length, modify, length-modify, contains,
}
use memo_build.Graph.{Node, BuildGraph, deps_of}
use memo_build.Graph.Topo.Visits.{IsRanked}
use memo_build.Core.{dirty_at, has_dirty_dep, soil, propagate_at, propagate_from, propagate_dirty}

-- Node `i` is dirty, or depends on a node of the graph that is tainted.
pub data Tainted (nodes : List Node) : ℕ → Type 0 where
  here : {i : ℕ} → dirty_at nodes i ≡ true → Tainted nodes i
  via :
      {i d : ℕ}
      → contains (deps_of nodes i) d ≡ true
      → d < length nodes
      → Tainted nodes d
      → Tainted nodes i

pub dirty_at-modify :
    (nodes : List Node) (i j : ℕ)
    → dirty_at (modify nodes i soil) j ≡ (i == j && ltb i (length nodes) || dirty_at nodes j)
dirty_at-modify [] i j = ground arith
dirty_at-modify (x ∷ nodes) zero zero = ground arith
dirty_at-modify (x ∷ nodes) zero (suc j) = ground arith
dirty_at-modify (x ∷ nodes) (suc i) zero = ground arith
dirty_at-modify (x ∷ nodes) (suc i) (suc j) = ground (arith, dirty_at-modify nodes i j)

pub deps_of-modify :
    (nodes : List Node) (i j : ℕ) → deps_of (modify nodes i soil) j ≡ deps_of nodes j
deps_of-modify [] i j = refl
deps_of-modify (x ∷ nodes) zero zero = refl
deps_of-modify (x ∷ nodes) zero (suc j) = refl
deps_of-modify (x ∷ nodes) (suc i) zero = refl
deps_of-modify (x ∷ nodes) (suc i) (suc j) = deps_of-modify nodes i j

has_dirty_dep_sound :
    (nodes : List Node) (deps : List ℕ)
    → has_dirty_dep nodes deps ≡ true
    → (d : ℕ) × (contains deps d ≡ true) × (d < length nodes) × (dirty_at nodes d ≡ true)
unfolding has_dirty_dep
has_dirty_dep_sound nodes [] h = cc
has_dirty_dep_sound nodes (dep ∷ deps) h =
    elim (Bool-cases (ltb dep (length nodes) && dirty_at nodes dep)) [
      | inl e ↦ (dep, ground arith, ground arith, ground arith)
      | inr e ↦
          let (d, m, lt, dirty) = has_dirty_dep_sound nodes deps (ground arith) in
          (d, ground arith, lt, dirty)
    ]

has_dirty_dep_complete :
    (nodes : List Node) (deps : List ℕ) (d : ℕ)
    → contains deps d ≡ true
    → d < length nodes
    → dirty_at nodes d ≡ true
    → has_dirty_dep nodes deps ≡ true
unfolding has_dirty_dep
has_dirty_dep_complete nodes [] d m lt dirty = cc
has_dirty_dep_complete nodes (dep ∷ deps) d m lt dirty =
    ground (arith, has_dirty_dep_complete nodes deps d)

-- What the loop has done so far, from `nodes` to `now`, with the nodes before `i` finished.
record Progress (nodes : List Node) (i : ℕ) (now : List Node) : Type 0 where
  size : length now ≡ length nodes
  deps : (j : ℕ) → deps_of now j ≡ deps_of nodes j
  kept : (j : ℕ) → dirty_at nodes j ≡ true → dirty_at now j ≡ true
  sound : (j : ℕ) → dirty_at now j ≡ true → Tainted nodes j
  closed :
      IsRanked (λ x. x) nodes
      → (j d : ℕ) → j < i
      → contains (deps_of nodes j) d ≡ true
      → d < length nodes
      → dirty_at now d ≡ true
      → dirty_at now j ≡ true

module _ (nodes : List Node) (i : ℕ) (lt : i < length nodes) where
  -- One round of the loop over the nodes.
  propagate_at-Progress :
      (now : List Node) → Progress nodes i now → Progress nodes (suc i) (propagate_at now i)
  unfolding propagate_at
  propagate_at-Progress now p = elim (Bool-cases (dirty_at now i)) [
    | inl dirty ↦ rw dirty (record {
      size = p.size;
      deps = p.deps;
      kept = p.kept;
      sound = p.sound;
      closed = λ ranked j d before m d_lt e. elim (Bool-cases (i == j)) [
        | inl same ↦ let eq : j ≡ i = ground arith in rw eq dirty
        | inr other ↦ p.closed ranked j d (ground arith) m d_lt e
      ];
    })
    | inr clean ↦ elim (Bool-cases (has_dirty_dep now (deps_of now i))) [
      | inl found ↦
          let (d, m, d_lt, e) = has_dirty_dep_sound now (deps_of now i) found in
          let reached : Tainted nodes i =
            Tainted.via (rw p.deps at m) (omega (arith, p.size)) (p.sound d e) in
          rw (clean, found)
            (record {
              size = length-modify now i soil ∙ p.size;
              deps = λ j. deps_of-modify now i j ∙ p.deps j;
              kept = λ j h. ground (arith, dirty_at-modify now i j, p.kept j);
              sound = λ j h. elim (Bool-cases (i == j)) [
                | inl same ↦ let eq : j ≡ i = ground arith in rw eq reached
                | inr other ↦ p.sound j (ground (arith, dirty_at-modify now i j))
              ];
              closed = λ ranked j c before m' c_lt e'. elim (Bool-cases (i == j)) [
                | inl same ↦ ground (arith, dirty_at-modify now i j, p.size)
                | inr other ↦
                    let old : dirty_at now c ≡ true =
                      ground (arith, dirty_at-modify now i c, ranked j c m' c_lt) in
                    ground (
                      arith,
                      dirty_at-modify now i j,
                      p.closed ranked j c (ground arith) m' c_lt old,
                    )
              ];
            })
      | inr none_found ↦
          rw (clean, none_found)
            (record {
              size = p.size;
              deps = p.deps;
              kept = p.kept;
              sound = p.sound;
              closed = λ ranked j d before m d_lt e. elim (Bool-cases (i == j)) [
                | inl same ↦
                    let eq : i ≡ j = ground arith in
                    let dep : contains (deps_of now i) d ≡ true = rw (p.deps, eq) m in
                    cc (
                      none_found,
                      has_dirty_dep_complete now (deps_of now i) d dep (omega (arith, p.size)) e,
                    )
                | inr other ↦ p.closed ranked j d (ground arith) m d_lt e
              ];
            })
    ]
  ]

propagate_from-Progress :
    (nodes : List Node) (rounds i : ℕ) (now : List Node)
    → i + rounds ≡ length nodes
    → Progress nodes i now
    → Progress nodes (length nodes) (propagate_from rounds i now)
unfolding propagate_from
propagate_from-Progress nodes zero i now e p =
    let last : i ≡ length nodes = omega arith in rw last at p
propagate_from-Progress nodes (suc rounds) i now e p =
    let q = propagate_at-Progress nodes i (omega arith) now p in
    let next : suc i ≡ i + 1 = omega arith in
    propagate_from-Progress nodes rounds (i + 1) _ (omega arith) (rw next at q)

Progress-start : (nodes : List Node) → Progress nodes 0 nodes
Progress-start nodes = record {
  size = refl;
  deps = λ j. refl;
  kept = λ j h. h;
  sound = λ j h. Tainted.here h;
  closed = λ ranked j d before. absurd (omega arith);
}

pub dirty_at-in_range : (nodes : List Node) (i : ℕ) → dirty_at nodes i ≡ true → i < length nodes
dirty_at-in_range [] i h = cc
dirty_at-in_range (x ∷ nodes) zero h = omega arith
dirty_at-in_range (x ∷ nodes) (suc i) h = omega (arith, dirty_at-in_range nodes i h)

pub deps-in_range :
    (nodes : List Node) (i d : ℕ) → contains (deps_of nodes i) d ≡ true → i < length nodes
deps-in_range [] i d h = cc
deps-in_range (x ∷ nodes) zero d h = omega arith
deps-in_range (x ∷ nodes) (suc i) d h = omega (arith, deps-in_range nodes i d h)

module _ (graph : BuildGraph) where
  finished : Progress graph.nodes (length graph.nodes) (propagate_dirty graph).nodes
  unfolding propagate_dirty
  finished =
      propagate_from-Progress graph.nodes (length graph.nodes) 0 graph.nodes (omega arith)
        (Progress-start graph.nodes)

  propagate_dirty_sound :
      (i : ℕ) → dirty_at (propagate_dirty graph).nodes i ≡ true → Tainted graph.nodes i
  propagate_dirty_sound i h = finished.sound i h

  Tainted-dirty :
      {i : ℕ}
      → IsRanked (λ x. x) graph.nodes
      → Tainted graph.nodes i
      → dirty_at (propagate_dirty graph).nodes i ≡ true
  Tainted-dirty ranked (here h) = finished.kept _ h
  Tainted-dirty {i} ranked (via {d = d} m lt t) =
      finished.closed ranked i d (deps-in_range graph.nodes i d m) m lt (Tainted-dirty ranked t)

  -- If every dependency stands in front of its dependent, as the builder places them, the single pass
  -- is exact: a node is dirty afterwards exactly if a chain of dependencies of any length, none
  -- included, leads from it to a node that was dirty before.
  pub propagate_dirty-exact :
      (i : ℕ)
      → IsRanked (λ x. x) graph.nodes
      → (dirty_at (propagate_dirty graph).nodes i ≡ true) ↔ Tainted graph.nodes i
  propagate_dirty-exact i ranked = (propagate_dirty_sound i, Tainted-dirty ranked)
