-- ===== src/Qemu/Errors.antt =====
-- becky-fx-qemu/src/lib.rs: the errors of machines. The errors of qapi, serde_json and other crates
-- are their texts.
use becky.Text.{Text}
use becky.Os.{IoError, FilePath}
use becky.SystemCommand.{FxSysCommandError}
use becky.Utils.{CommandRanError}

pub data CallApiError : Type 0 where
  executor : Text → CallApiError
  timed_out : CallApiError
  unsupported_command unsupported_guest_agent_command : Text → CallApiError
  no_ga_available : CallApiError

pub data CollectError : Type 0 where
  call_api_error : CallApiError → CollectError
  cpu_not_found regex : Text → CollectError
  cpu_regex_failed : CollectError

pub data VerifyError : Type 0 where
  io : IoError → VerifyError
  call_api_error : CallApiError → VerifyError
  collect : CollectError → VerifyError

pub data SpawnError : Type 0 where
  io : IoError → SpawnError
  system_command : FxSysCommandError → SpawnError
  pid_not_found : SpawnError
  parse_pid : Text → SpawnError
  timed_out : SpawnError
  qmp : Text → SpawnError
  db : SpawnError

pub data AllocateError : Type 0 where
  io : IoError → AllocateError
  storage_not_ok db : AllocateError

pub data CreateError : Type 0 where
  io : IoError → CreateError
  config metadata parse_qemu_command get_proc parse_pid join_paths which : Text → CreateError
  verify : VerifyError → CreateError
  spawn : SpawnError → CreateError
  allocate : AllocateError → CreateError

pub data ArchiveError : Type 0 where
  io : IoError → ArchiveError
  call_api_error : CallApiError → ArchiveError
  unsupported_policy : Text → ArchiveError

pub data QemuStorageCreateError : Type 0 where
  io : IoError → QemuStorageCreateError
  json_parse : Text → QemuStorageCreateError
  corrupt_image : FilePath → QemuStorageCreateError
  command_ran_error : CommandRanError → QemuStorageCreateError
  file_not_found : FilePath → QemuStorageCreateError
  unsupported_storage : Text → QemuStorageCreateError
