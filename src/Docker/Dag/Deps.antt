-- ===== src/Docker/Dag/Deps.antt =====
-- The dependencies of one node of a built graph.
use mathlib.Core.Logic.Or
use mathlib.Core.List.{Mem, Perm, mem-cons, mem-cons_self, mem-cons_of_mem, not-mem-nil}
use mathlib.Core.List.Perm
use native.Mathlib.Bridge.{le_prop}
use memo_build.Prelude.{
  ℕ, ◌-◌, ◌≤◌, ◌<◌, ◌≡◌, ◌⊎◌, refl, ap, Bool, true, false, not, ◌&&◌, List, [], ◌∷◌, inl, inr,
  arith, ltb, Bool-cases, contains, contains-append, distinct, distinct-snoc, Text, text_eq, insert,
}
use memo_build.Docker.Instructions.{Instruction, from_, run}
use memo_build.Docker.Dag.{
  previous, mentions, run_deps, run_parts, from_parts, workdir_parts, copy_parts, env_parts,
  cmd_parts, git_parts, run_extend_parts, copy_extend_parts, other_parts, hook_parts, parts_of,
}

-- Every tracked COPY stands in front of index `i`.
abbrev pub SourcesBelow : ℕ → List (Text × ℕ) → Type 0
SourcesBelow i sources = (src : Text) (idx : ℕ) → Mem (src, idx) sources → idx < i

pub SourcesBelow-mono :
    (i j : ℕ) (sources : List (Text × ℕ)) → i ≤ j → SourcesBelow i sources → SourcesBelow j sources
SourcesBelow-mono i j sources le h src idx m = omega (arith, h src idx m)

pub insert-SourcesBelow :
    (i j : ℕ) (k : Text) (sources : List (Text × ℕ))
    → i < j
    → SourcesBelow j sources
    → SourcesBelow j (insert k i sources)
unfolding insert
insert-SourcesBelow i j k [] lt h src idx m =
    Or.elim le_prop (mem-cons.0 m) (λ e. omega (arith, ap (λ (p : Text × ℕ). p.1) e))
      (λ absent. absurd (not-mem-nil absent))
insert-SourcesBelow i j k ((k', v) ∷ sources) lt h src idx m = elim (Bool-cases (text_eq k' k)) [
  | inl e ↦
      Or.elim le_prop (mem-cons.0 (rw e at m))
        (λ same. omega (arith, ap (λ (p : Text × ℕ). p.1) same))
        (λ later. h src idx (mem-cons_of_mem _ later))
  | inr e ↦
      Or.elim le_prop (mem-cons.0 (rw e at m)) (λ same. h src idx (rw same mem-cons_self))
        (λ later.
          insert-SourcesBelow i j k sources lt (λ s x m'. h s x (mem-cons_of_mem _ m')) src idx
            later)
]

-- The dependencies of a node: each once, all in front of it, and the node before it among them.
pub record DepsAt (i : ℕ) (follows : Bool) (deps : List ℕ) : Type 0 where
  pub below : (d : ℕ) → contains deps d ≡ true → d < i
  pub once : distinct deps ≡ true
  pub either : (follows ≡ true) ⊎ (deps ≡ [])
  pub chained : contains deps (i - 1) ≡ (follows && ltb 0 i)

nil-DepsAt : (i : ℕ) → DepsAt i false []
nil-DepsAt i = record { below = λ d h. cc; once = refl; either = inr refl; chained = refl }

previous-DepsAt : (i : ℕ) → DepsAt i true (previous i)
previous-DepsAt i = record {
  below = λ d h. ground arith;
  once = ground arith;
  either = inl refl;
  chained = ground arith;
}

run_deps-DepsAt :
    (i : ℕ) (command : Text) (sources : List (Text × ℕ)) (deps : List ℕ)
    → SourcesBelow i sources
    → DepsAt i true deps
    → DepsAt i true (run_deps command deps sources)
unfolding run_deps
run_deps-DepsAt i command [] deps low h = h
run_deps-DepsAt i command ((src, idx) ∷ rest) deps low h =
    run_deps-DepsAt i command rest _ (λ s x m. low s x (mem-cons_of_mem _ m))
      (elim (Bool-cases (mentions command src && not (contains deps idx))) [
        | inl e ↦ rw e (record {
          below = λ d m.
              ground
                (arith, contains-append deps (idx ∷ []) d, h.below d, low src idx mem-cons_self);
          once = ground (arith, distinct-snoc deps idx, h.once);
          either = inl refl;
          chained = ground (
            arith,
            contains-append deps (idx ∷ []) (i - 1),
            h.chained,
            low src idx mem-cons_self,
          );
        })
        | inr e ↦ rw e h
      ])

-- Every instruction but FROM depends on the one before it.
abbrev pub follows : Instruction → Bool
follows (from_ img) = false
follows _ = true

module _ (debug_instruction : Instruction → Text) (debug_texts : List Text → Text)
    (iter : List (Text × ℕ) → List (Text × ℕ)) (project_root : Text)
    (permutes : (m : List (Text × ℕ)) → Perm (iter m) m) where
  pub parts_of-DepsAt :
      (i : ℕ) (instr : Instruction) (sources : List (Text × ℕ))
      → SourcesBelow i sources
      → DepsAt i
          (follows instr)
          (parts_of debug_instruction debug_texts iter project_root i instr sources).deps
  unfolding parts_of run_parts from_parts workdir_parts copy_parts env_parts cmd_parts git_parts
      run_extend_parts copy_extend_parts other_parts hook_parts
  parts_of-DepsAt i (from_ img) sources low = nil-DepsAt i
  parts_of-DepsAt i (run command) sources low =
      run_deps-DepsAt i command (iter sources) (previous i)
        (λ src idx m. low src idx ((Perm.mem_iff (permutes sources)).0 m)) (previous-DepsAt i)
  parts_of-DepsAt i _ sources low = previous-DepsAt i
