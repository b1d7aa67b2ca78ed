-- ===== src/Sandbox.antt =====
-- src/sandbox/local.rs, `LocalSandbox`, on a machine that is not Windows: the commands run in the
-- workspace itself. The shell and the file system are parameters over their state.
use memo_build.Prelude.{
  ℕ, Bool, Option, none, some, List, [], ◌∷◌, ◌++◌, if◌then◌else◌, Text, codes, join,
}
use memo_build.Prelude.Results.{ok, Action, ◌>>=◌, ◌>>◌, pure}
use memo_build.Graph.{NodeKind, Node}
use memo_build.Ai.{parent}
use memo_build.Executor.Interface.{SandboxEnv, ExecResult}

-- What the process and the file system do: a command line with the variables and the directory that
-- it runs in gives its exit code, none if a signal ended it, and its two outputs.
pub record Machine (W : Type 0) : Type 0 where
  pub shell : Text → List (Text × Text) → Text → Action W (Option ℕ × Text × Text)
  pub is_dir : Text → W → Bool
  pub create_dir_all : Text → Action W (Unit {0})
  pub copy_file : Text → Text → Action W (Unit {0})

abbrev pub unwrap_or_one : Option ℕ → ℕ
unwrap_or_one none = 1
unwrap_or_one (some code) = code

-- `params.join(" ")`
unfoldable pub join_params : List Text → Text
join_params [] = []
join_params (p ∷ []) = p
join_params (p ∷ q ∷ rest) = p ++ codes " " ++ join_params (q ∷ rest)

abbrev pub succeeded : Text → ExecResult
succeeded stdout = record { exit_code = 0; stdout = stdout; stderr = [] }

unfoldable pub prepare {ℓ} : {W : Type ℓ} → Text → Node → Action W SandboxEnv
prepare workspace_dir node = pure (record { workspace_dir = workspace_dir; env_vars = node.env })

unfoldable pub cleanup {ℓ} : {W : Type ℓ} → SandboxEnv → Action W (Unit {0})
cleanup env = pure tt

module _ {W : Type 0} (machine : Machine W) where
  unfoldable pub run_shell : SandboxEnv → Text → Action W ExecResult
  run_shell env command = do
    output ← machine.shell command env.env_vars env.workspace_dir
    let (code, stdout, stderr) = output
    pure (record { exit_code = unwrap_or_one code; stdout = stdout; stderr = stderr })

  -- The arm of `CopyExtend`: a directory is copied by a command, in which the paths are as written.
  unfoldable pub copy_into : SandboxEnv → Text → Text → Action W ExecResult
  unfolding run_shell
  copy_into env src dst = do
    let src_path = join env.workspace_dir src
    let dst_path = join env.workspace_dir dst
    machine.create_dir_all (parent dst_path)
    is_directory ← (λ w. (ok (machine.is_dir src_path w), w))
    if is_directory
        then run_shell env (codes "cp -r " ++ src ++ codes " " ++ dst)
        else (machine.copy_file src_path dst_path
            >> pure (succeeded (codes "Copied " ++ src ++ codes " to " ++ dst)))

  unfoldable pub execute_kind : SandboxEnv → Node → NodeKind → Action W ExecResult
  unfolding run_shell copy_into join_params
  execute_kind env node NodeKind.run = run_shell env node.content
  execute_kind env node (NodeKind.run_extend command parallelizable) = run_shell env command
  execute_kind env node (NodeKind.custom_hook hook_name params) =
      run_shell env (hook_name ++ codes " " ++ join_params params)
  execute_kind env node (NodeKind.copy_extend src dst tags) = copy_into env src dst
  execute_kind env node _ = pure (succeeded (codes "Artifact for " ++ node.name))

  unfoldable pub execute : SandboxEnv → Node → Action W ExecResult
  unfolding execute_kind
  execute env node = execute_kind env node node.kind
