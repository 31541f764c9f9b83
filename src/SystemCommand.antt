-- ===== src/SystemCommand.antt =====
-- becky-fx-system-command/src/lib.rs: the data of the provider.
pub mod Match
mod Examples
mod PidExamples
pub mod Sample
pub mod Launch
pub mod CommandId
pub mod PidFile
pub mod Signals
pub mod Control
use becky.Base.{ℕ, zero, suc, ◌+◌, List, [], ◌∷◌, Option, none, some, Bool, true, false}
use becky.Text.{Text}
use becky.Text.Decimal.{decimal}
use becky.State.{FxExecutionState, not_started, FxDesiredExecutionState}
use becky.Os.{IoError, FilePath}

pub data FxSysCommandError : Type 0 where
  io : IoError → FxSysCommandError
  process_not_running signal_failed_to_send : FxSysCommandError
  string : Text → FxSysCommandError
  unsupported : Text → FxSysCommandError
  pid_not_found empty_command process_did_not_exit : ℕ → FxSysCommandError

-- `i8`, by its sign: `negsuc n` is -(n + 1).
pub data NiceLevel : Type 0 where
  pos negsuc : ℕ → NiceLevel

abbrev pub highest_priority : NiceLevel
highest_priority = negsuc 19

abbrev pub lowest_priority : NiceLevel
lowest_priority = pos 19

abbrev pub default_priority : NiceLevel
default_priority = pos 0

unfoldable pub nice_to_string : NiceLevel → Text
nice_to_string (pos n) = decimal n
nice_to_string (negsuc n) = b'-' ∷ decimal (n + 1)

pub record FxSystemCommand : Type 0 where
  pub command : Text
  pub args : List Text
  pub state : FxExecutionState
  pub desired_state : FxDesiredExecutionState
  pub nice_level : Option NiceLevel
  pub pid_directory : Option FilePath
  pub pin_to_cpus : Option (List ℕ)
  pub stdout_path : Option FilePath
  pub stderr_path : Option FilePath

-- `FxSystemCommand::new`
abbrev pub new : Text → List Text → FxDesiredExecutionState → FxSystemCommand
new command args desired_state = record {
  command = command;
  args = args;
  state = not_started;
  desired_state = desired_state;
  nice_level = none;
  pid_directory = none;
  pin_to_cpus = none;
  stdout_path = none;
  stderr_path = none;
}

-- The waiter task and its channel are there until `destroy` takes them.
pub record SystemProcessRunningTokio : Type 0 where
  pub handle : Bool
  pub tx : Bool
  pub pid : ℕ
  pub child : ℕ

pub data FxSystemProcessRunning : Type 0 where
  tokio : SystemProcessRunningTokio → FxSystemProcessRunning
  pid_only : ℕ → FxSystemProcessRunning

abbrev pub get_pid : FxSystemProcessRunning → ℕ
get_pid (tokio handle) = handle.pid
get_pid (pid_only pid) = pid
