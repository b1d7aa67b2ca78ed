-- ===== src/Tests/Samples.antt =====
-- A small Dockerfile and its graph.
use mathlib.Core.List.{Perm}
use mathlib.Core.List.Perm
use memo_build.Prelude.{ℕ, List, [], ◌∷◌, Text, codes}
use memo_build.Graph.{BuildGraph}
use memo_build.Docker.Instructions.{Instruction, from_, copy, run, cmd}
use memo_build.Docker.Dag.{build_graph_from_instructions}

abbrev pub instructions : List Instruction
instructions =
    from_ (codes "alpine")
    ∷ copy (codes "app") (codes "/app")
    ∷ run (codes "make app")
    ∷ cmd (codes "run")
    ∷ []

abbrev pub no_debug : Instruction → Text
no_debug instr = []

abbrev pub no_texts : List Text → Text
no_texts texts = []

abbrev pub in_order : List (Text × ℕ) → List (Text × ℕ)
in_order m = m

abbrev pub root : Text
root = codes "/src"

pub in_order-perm : (m : List (Text × ℕ)) → Perm (in_order m) m
in_order-perm m = Perm.refl m

abbrev pub sample : BuildGraph
sample = build_graph_from_instructions no_debug no_texts in_order root instructions
