-- ===== src/Qemu/Instance.antt =====
-- becky-fx-qemu/src/instance.rs: a machine, and what is left of one that ran.
pub mod Accounting
pub mod Existing
pub mod Live
pub mod Comm
pub mod Calls
pub mod Control
pub mod Managed
mod Examples
use Prim.Native.String.{String}
use becky.Base.{ℕ, Bool, true, false, Option, none, some, List, [], ◌∷◌, ◌++◌, if◌then◌else◌}
use becky.Base.{Result, ok, err, map_err, Action, pure, fail, ◌>>=◌, ◌>>◌, catch}
use becky.Text.{Text, chars}
use becky.Text.Decimal.{parse_uint}
use becky.Text.Trim.{trim}
use becky.Id.{UuidCrate, FxId, to_string}
use becky.State.{FxExecutionState, not_started, stopped, error, FxDesiredExecutionState}
use becky.Os.{IoError, FilePath, Process, process, DiskUsage, no_disk_usage, Os}
use becky.Os.Paths.{push}
use becky.Utils.Processes
use becky.Storage.{SystemConfiguration}
use becky.SystemCommand.{FxSystemCommand, new}
use becky.SystemCommand.PidFile.{max_u32}
use becky.Qemu.Errors.{CreateError, parse_qemu_command, CallApiError, executor}
use becky.Qemu.Commands.{
  SchemaInfo, GuestAgentCommandInfo, schema_supports_command, ga_supports_command,
}
use becky.Qemu.Config.{
  QemuCrate, QemuMachineConfiguration, QemuMetadataRecord, common_of, to_desired,
}
use becky.Qemu.Config.Desired.{machine_configuration_from_metadata_record}
use becky.Qemu.Command.{CommandHost, Qemu, qemu_from_machine_configuration}
use becky.Qemu.Paths.{pid_path_s, ctl_socket_path_s, ga_socket_path_s, vm_dir}

-- `qapi::qmp::RunState`
pub data RunState : Type 0 where
  running paused debug inmigrate postmigrate finish_migrate restore_vm save_vm : RunState
  suspended colo prelaunch shutdown internal_error io_error watchdog guest_panicked : RunState

pub record StatusInfo : Type 0 where
  pub running : Bool
  pub status : RunState

-- The variant's name, as `{:?}` prints it, where it is printed.
abbrev run_state_error : String → FxExecutionState
run_state_error name = error (chars name)

unfoldable pub state_from_qmp_status : StatusInfo → ℕ → FxExecutionState
state_from_qmp_status s pid = elim s.status [
  | RunState.running ↦ FxExecutionState.running pid
  | RunState.prelaunch ↦ not_started
  | RunState.shutdown ↦ stopped
  | RunState.internal_error ↦ run_state_error "internal_error"
  | RunState.io_error ↦ run_state_error "io_error"
  | RunState.watchdog ↦ run_state_error "watchdog"
  | RunState.guest_panicked ↦ run_state_error "guest_panicked"
  | _ ↦ FxExecutionState.paused pid
]

-- A machine's process, its connections and tasks by names, and what it supports.
pub record QemuHandle : Type 0 where
  pub process : Processes.Process
  pub ctl : ℕ
  pub schema : List SchemaInfo
  pub event_reader : ℕ
  pub ga : Option ℕ
  pub ga_info : Option (List GuestAgentCommandInfo)
  pub ga_task : Option ℕ

unfoldable pub supported_command : QemuHandle → Text → Bool
unfolding schema_supports_command
supported_command handle cmd = schema_supports_command handle.schema cmd

unfoldable pub supported_ga_command : QemuHandle → Text → Bool
unfolding ga_supports_command
supported_ga_command handle cmd = elim handle.ga_info [
  | none ↦ false
  | some commands ↦ ga_supports_command commands cmd
]

-- The text of a command line, and back; `qemu_command_builder`.
pub record CommandText (Q : Type 0) : Type 0 where
  pub to_command : Q → List Text
  pub to_single_command : Q → Text
  pub from_str : Text → Result Text Q

command_of : List Text → FxSystemCommand
command_of [] = new [] [] FxDesiredExecutionState.running
command_of (cmd ∷ args) = new cmd args FxDesiredExecutionState.running

abbrev pub command_from_qemu : {Q : Type 0} → CommandText Q → Q → FxSystemCommand
unfolding command_of
command_from_qemu text qemu = command_of (text.to_command qemu)

-- A command whose machine runs.
abbrev pub running_command : Option ℕ → FxSystemCommand → FxSystemCommand
running_command none c = c
running_command (some pid) c = record c {
  state = FxExecutionState.running pid;
  desired_state = FxDesiredExecutionState.running;
}

module _ {W : Type 0} (os : Os W) where
  live_in : List Process → Option ℕ → Option ℕ
  live_in table none = none
  live_in table (some pid) = elim (process table pid) [ none ↦ none | some p ↦ some pid ]

  -- The process table is read only for a pid.
  live_pid : Option ℕ → W → Option ℕ × W
  unfolding live_in
  live_pid none w = (none, w)
  live_pid (some pid) w = let (table, w') = os.new_all w in (live_in table (some pid), w')

  abbrev parsed_pid : Result IoError Text → Option ℕ
  unfolding parse_uint trim
  parsed_pid (err x) = none
  parsed_pid (ok text) = parse_uint max_u32 (trim text)

  unfoldable pub live_pid_from_pidfile : FilePath → W → Option ℕ × W
  unfolding live_pid parse_uint trim
  live_pid_from_pidfile pidfile w =
      let (r, w') = os.read_to_string pidfile w in live_pid (parsed_pid r) w'

  -- Whatever the removal answers is only logged.
  abbrev remove_stale_file : FilePath → W → W
  remove_stale_file path w = (os.remove_file path w).1

  module _ (U : UuidCrate) (root : FilePath) (fx_id : FxId U) where
    remove_files : W → W
    remove_files w = remove_stale_file (ga_socket_path_s U root fx_id) (
        remove_stale_file (ctl_socket_path_s U root fx_id)
          (remove_stale_file (pid_path_s U root fx_id) w))

    unfoldable pub reconcile_existing_files : W → W
    unfolding live_pid_from_pidfile remove_files
    reconcile_existing_files w =
        let (live, w') = live_pid_from_pidfile (pid_path_s U root fx_id) w in
        elim live [ some pid ↦ w' | none ↦ remove_files w' ]

module _ (U : UuidCrate) (B : QemuCrate) (Q : Type 0) where
  -- `Q` is a command line. The channel of a machine's events is the host's.
  pub record QemuInstance : Type 0 where
    pub cmd : FxSystemCommand
    pub qemu : Q
    pub fx_id : FxId U
    pub machine_configuration : QemuMachineConfiguration B
    pub system_configuration : SystemConfiguration
    pub status : StatusInfo

module _ {U : UuidCrate} {B : QemuCrate} {Q : Type 0} where
  abbrev pub root_of : QemuInstance U B Q → FilePath
  root_of i = i.system_configuration.vm_root_path

  abbrev pub has_ga : QemuInstance U B Q → Bool
  has_ga i = (common_of B i.machine_configuration.conf).enable_guest_agent

  abbrev pub qmp_connect_timeout_secs : QemuInstance U B Q → ℕ
  qmp_connect_timeout_secs i = (common_of B i.machine_configuration.conf).qmp_connect_timeout_secs

  abbrev pub qga_connect_timeout_secs : QemuInstance U B Q → ℕ
  qga_connect_timeout_secs i = (common_of B i.machine_configuration.conf).qga_connect_timeout_secs

  abbrev pub uds_retry_interval_millis : QemuInstance U B Q → ℕ
  uds_retry_interval_millis i = (common_of B i.machine_configuration.conf).uds_retry_interval_millis

  abbrev pub qga_command_timeout_secs : QemuInstance U B Q → ℕ
  qga_command_timeout_secs i = (common_of B i.machine_configuration.conf).qga_command_timeout_secs

  abbrev pub status_poll_interval_secs : QemuInstance U B Q → ℕ
  status_poll_interval_secs i = (common_of B i.machine_configuration.conf).status_poll_interval_secs

  module _ (text : CommandText Q) where
    unfoldable pub metadata_record : QemuInstance U B Q → Option ℕ → QemuMetadataRecord
    unfolding to_desired to_string push
    metadata_record i runtime_pid = record {
      name = i.machine_configuration.name;
      command_line = text.to_single_command i.qemu;
      desired = some (to_desired B i.machine_configuration);
      runtime_pid = runtime_pid;
      guest_agent_enabled = has_ga i;
      pidfile = pid_path_s U (root_of i) i.fx_id;
      qmp_socket = ctl_socket_path_s U (root_of i) i.fx_id;
      qga_socket = if has_ga i then some (ga_socket_path_s U (root_of i) i.fx_id) else none;
      log_dir = vm_dir U (root_of i) i.fx_id (chars "log");
      data_dir = push i.system_configuration.vm_data_root_path (to_string U i.fx_id);
    }

    abbrev pub instance_of :
        SystemConfiguration
        → QemuMachineConfiguration B
        → FxId U
        → Q
        → Option ℕ
        → QemuInstance U B Q
    unfolding command_of
    instance_of sys_conf value fx_id qemu live = record {
      cmd = running_command live (command_from_qemu text qemu);
      qemu = qemu;
      fx_id = fx_id;
      machine_configuration = value;
      system_configuration = sys_conf;
      status = record { running = false; status = RunState.prelaunch };
    }
