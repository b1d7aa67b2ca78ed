-- ===== src/Executor/Interface.antt =====
-- What src/executor.rs calls: the cache, the sandbox (src/sandbox/mod.rs), the remote executor
-- (src/remote_exec/mod.rs) and the clock. `S` is the state of all of them.
use memo_build.Prelude.{ℕ, Option, List, Text}
use memo_build.Prelude.Results.{Action}
use memo_build.Graph.{Node}

pub record SandboxEnv : Type 0 where
  pub workspace_dir : Text
  pub env_vars : List (Text × Text)

-- An exit code is the bit pattern of the `i32`; zero is success.
pub record ExecResult : Type 0 where
  pub exit_code : ℕ
  pub stdout : Text
  pub stderr : Text

pub record Digest : Type 0 where
  pub hash : Text
  pub size_bytes : ℕ

pub record ActionRequest : Type 0 where
  pub command : List Text
  pub env : List (Text × Text)
  pub input_root_digest : Digest
  pub timeout_secs : ℕ
  pub platform_properties : List (Text × Text)
  pub output_files : List Text
  pub output_directories : List Text

pub record ExecutionMetadata : Type 0 where
  pub worker_id : Text
  pub queued_timestamp : Option ℕ
  pub worker_start_timestamp : Option ℕ
  pub worker_completed_timestamp : Option ℕ

pub record ActionResult : Type 0 where
  pub output_files : List (Text × Digest)
  pub exit_code : ℕ
  pub stdout_raw : Text
  pub stderr_raw : Text
  pub execution_metadata : ExecutionMetadata

pub record Services (S : Type 0) : Type 0 where
  pub get_artifact : Text → Action S (Option Text)
  pub put_artifact : Text → Text → Action S (Unit {0})
  pub prepare : Node → Action S SandboxEnv
  pub execute : SandboxEnv → Node → Action S ExecResult
  pub cleanup : SandboxEnv → Action S (Unit {0})
  pub remote_executor : Option (ActionRequest → Action S ActionResult)
  pub now : S → ℕ
  pub elapsed_ms : S → ℕ
