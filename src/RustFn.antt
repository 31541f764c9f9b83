-- ===== src/RustFn.antt =====
-- becky-fx-rust-fn/src/lib.rs: the data of the provider, which runs a registered function in a
-- worker process of the same executable.
pub mod Registry
pub mod Worker
pub mod PidFile
pub mod Exit
pub mod Handle
pub mod Control
mod Sample
mod Examples
use becky.Base.{ℕ, List, [], ◌∷◌, ◌++◌, Option, none, Bool}
use becky.Text.{Text, chars}
use becky.Os.{IoError, FilePath}

abbrev pub default_worker_arg : Text
default_worker_arg = chars "--becky-rust-fn"

-- in milliseconds
abbrev pub default_reattach_poll_interval : ℕ
default_reattach_poll_interval = 2000

abbrev pub default_stop_wait_timeout : ℕ
default_stop_wait_timeout = 5000

pub record RustFnContext : Type 0 where
  pub name : Text
  pub args : List Text

-- The code is an `i32`, by its 32 bits.
pub record RustFnExit : Type 0 where
  pub code : ℕ

abbrev pub success : RustFnExit
success = record { code = 0 }

abbrev pub failure : ℕ → RustFnExit
failure code = record { code = code }

-- The parse error inside `InvalidPidFile` is left out.
pub data RustFnError : Type 0 where
  missing_function_name : RustFnError
  function_not_found : Text → RustFnError
  current_exe : IoError → RustFnError
  io : IoError → RustFnError
  invalid_pid_file : FilePath → RustFnError
  stale_pid_file : FilePath → ℕ → RustFnError
  pid_mismatch : ℕ → Text → RustFnError
  missing_pid : RustFnError
  signal_failed : ℕ → RustFnError
  stop_timeout : ℕ → ℕ → RustFnError

pub record FxRustFn : Type 0 where
  pub function : Text
  pub executable : Option Text
  pub run_dir : FilePath
  pub args : List Text
  pub env : List (Text × Text)
  pub worker_arg : Text
  pub reattach_poll_interval : ℕ

-- `FxRustFn::new`
abbrev pub new : Text → FilePath → FxRustFn
new function run_dir = record {
  function = function;
  executable = none;
  run_dir = run_dir;
  args = [];
  env = [];
  worker_arg = default_worker_arg;
  reattach_poll_interval = default_reattach_poll_interval;
}

abbrev pub with_args : FxRustFn → List Text → FxRustFn
with_args c args = record c { args = args }

abbrev pub with_env : FxRustFn → Text → Text → FxRustFn
with_env c key value = record c { env = c.env ++ (key, value) ∷ [] }

-- `latest_state` names the cell that the monitor shares, and the monitor's task is there until it
-- is stopped.
pub record RustFnHandle : Type 0 where
  pub pid : ℕ
  pub function : Text
  pub reattached : Bool
  pub worker_arg : Text
  pub latest_state : ℕ
  pub monitor : Option ℕ

-- The two tasks that the provider spawns: one waits for a child, the other polls a pid.
pub data Monitor : Type 0 where
  child_monitor : ℕ → ℕ → Monitor
  pid_monitor : ℕ → Text → Text → ℕ → ℕ → Monitor

pub data ObservedProcess : Type 0 where
  matching mismatched missing : ObservedProcess
