-- ===== src/Docker/Instructions.antt =====
-- src/docker/parser.rs, `Instruction`.
use memo_build.Prelude.{Bool, List, Text}

pub data Instruction : Type 0 where
  from_ workdir run cmd other : Text → Instruction
  copy env git : Text → Text → Instruction
  run_extend : (command : Text) (parallelizable : Bool) → Instruction
  copy_extend : (src dst : Text) (tags : List Text) → Instruction
  hook : (name : Text) (params : List Text) → Instruction
