-- ===== src/Qemu/Instance/Comm.antt =====
-- becky-fx-qemu/src/comm.rs and src/instance.rs: the connections to a machine. `InstanceHost` has the
-- sockets, qapi, the metadata manager for one host, and the storage that is allocated.
pub mod Connected
use becky.Base.{ℕ, Bool, true, false, Option, none, some, List, [], ◌∷◌, if◌then◌else◌}
use becky.Base.{Result, ok, err, map_err, Action, pure, fail, ◌>>=◌, ◌>>◌, catch}
use becky.Text.{Text, chars}
use becky.Text.Decimal.{parse_uint}
use becky.Text.Trim.{trim}
use becky.Id.{UuidCrate, FxId}
use becky.Utils.Processes.{Process, get_process}
use becky.State.{FxExecutionState, running}
use becky.Os.{IoError, FilePath, Os}
use becky.SystemCommand.PidFile.{max_u32}
use becky.Qemu.Errors.{SpawnError, pid_not_found, parse_pid, timed_out, qmp, db, CallApiError}
use becky.Qemu.Commands.{SchemaInfo, GuestAgentCommandInfo}
use becky.Qemu.Config.{QemuCrate, QemuMetadataRecord}
use becky.Qemu.Paths.{pid_path_s, ctl_socket_path_s, ga_socket_path_s}
use becky.Qemu.Instance.{
  QemuInstance, QemuHandle, StatusInfo, CommandText, metadata_record, root_of, has_ga,
  qga_connect_timeout_secs, uds_retry_interval_millis, qga_command_timeout_secs,
}

pub record InstanceHost (K W : Type 0) : Type 0 where
  pub os : Os W
  -- `Path::exists`
  pub exists : FilePath → W → Bool × W
  -- `try_connect_ctl_socket` of a path, with its timeout and its pause; `none` when the time is over.
  pub connect_ctl : FilePath → ℕ → ℕ → W → Option ℕ × W
  -- `try_connect_ga_socket`, which returns the connection and its task.
  pub connect_ga : FilePath → ℕ → ℕ → W → Option (ℕ × ℕ) × W
  -- The task that forwards the events of a connection.
  pub spawn_event_reader : ℕ → W → ℕ × W
  pub query_version : ℕ → Action W Text (Unit {0})
  pub query_qmp_schema : ℕ → Action W Text (List SchemaInfo)
  pub query_status : ℕ → Action W Text StatusInfo
  pub query_block : ℕ → Action W Text (Unit {0})
  pub system_powerdown : ℕ → Action W Text (Unit {0})
  pub quit : ℕ → Action W Text (Unit {0})
  -- `snapshot_save` with the tag, which is also the job, and the file of the state.
  pub snapshot_save : ℕ → Text → Text → Action W Text (Unit {0})
  -- Guest agent calls within some seconds; `none` when the time is over.
  pub guest_ping : ℕ → ℕ → W → Option (Result Text (Unit {0})) × W
  pub guest_info : ℕ → ℕ → W → Option (Result Text (List GuestAgentCommandInfo)) × W
  pub state_update : K → FxExecutionState → Action W Text (Unit {0})
  pub record_upsert : K → QemuMetadataRecord → Action W Text (Unit {0})
  -- `sys_storage_create` of the storage that is allocated for a machine.
  pub storage_create : K → Action W Text (Unit {0})

abbrev pub Spawn : Type 0 → Type 0 → Type 0
Spawn W A = Action W SpawnError A

-- A call under a timeout, with `map_err(SpawnError::Timeout)??`.
abbrev in_time : {A : Type 0} → Option (Result Text A) → Result SpawnError A
in_time none = err timed_out
in_time (some r) = map_err qmp r

module _ {K W : Type 0} (host : InstanceHost K W) where
  parsed : Option ℕ → Result SpawnError ℕ
  parsed none = err (parse_pid [])
  parsed (some pid) = ok pid

  -- The errors of a parse are not told apart.
  pid_of : FilePath → Spawn W ℕ
  unfolding parsed parse_uint trim
  pid_of pidfile = do
    content ← catch SpawnError.io (host.os.read_to_string pidfile)
    (λ w. (parsed (parse_uint max_u32 (trim content)), w))

  -- `get_process` with `ok_or`.
  proc_of : ℕ → Spawn W Process
  unfolding get_process
  proc_of pid w =
      let (found, w') = get_process host.os pid w in
      (elim found [ none ↦ err pid_not_found | some p ↦ ok p ], w')

  monitored : ℕ → FilePath → ℕ → Spawn W QemuHandle
  unfolding pid_of proc_of
  monitored ctl pidfile reader = do
    pid ← pid_of pidfile
    process ← proc_of pid
    catch qmp (host.query_version ctl)
    schema ← catch qmp (host.query_qmp_schema ctl)
    pure (record {
      process = process;
      ctl = ctl;
      schema = schema;
      event_reader = reader;
      ga = none;
      ga_info = none;
      ga_task = none;
    })

  unfoldable pub try_monitor_qemu_with_api : ℕ → FilePath → Spawn W QemuHandle
  unfolding monitored
  try_monitor_qemu_with_api ctl pidfile w =
      let (reader, w') = host.spawn_event_reader ctl w in monitored ctl pidfile reader w'

  agent_call : {A : Type 0} → (ℕ → ℕ → W → Option (Result Text A) × W) → ℕ → ℕ → Spawn W A
  agent_call call timeout qga w = let (r, w') = call timeout qga w in (in_time r, w')

  module _ {U : UuidCrate} {B : QemuCrate} {Q : Type 0} where
    with_agent : QemuInstance U B Q → QemuHandle → Option (ℕ × ℕ) → Spawn W QemuHandle
    unfolding agent_call
    with_agent i handle none = fail timed_out
    with_agent i handle (some (qga, task)) = do
      agent_call host.guest_ping (qga_command_timeout_secs i) qga
      info ← agent_call host.guest_info (qga_command_timeout_secs i) qga
      pure (record handle { ga = some qga; ga_info = some info; ga_task = some task })

    unfoldable pub attach_guest_agent : QemuInstance U B Q → QemuHandle → Spawn W QemuHandle
    unfolding with_agent
    attach_guest_agent i handle w =
        let (qga, w') =
          host.connect_ga (ga_socket_path_s U (root_of i) i.fx_id) (qga_connect_timeout_secs i)
            (uds_retry_interval_millis i) w in
        with_agent i handle qga w'

    -- An agent is attached to a machine that has one.
    agent_if : Bool → QemuInstance U B Q → QemuHandle → Spawn W QemuHandle
    unfolding attach_guest_agent
    agent_if true i handle = attach_guest_agent i handle
    agent_if false i handle = pure handle

    -- What follows a connection: the handle, the metadata, and the agent.
    unfoldable pub connected : CommandText Q → K → QemuInstance U B Q → ℕ → Spawn W QemuHandle
    unfolding try_monitor_qemu_with_api metadata_record agent_if
    connected text fx_id i ctl = do
      handle ← try_monitor_qemu_with_api ctl (pid_path_s U (root_of i) i.fx_id)
      catch (λ x. db) (host.state_update fx_id (running handle.process.pid))
      catch (λ x. db) (host.record_upsert fx_id (metadata_record text i (some handle.process.pid)))
      agent_if (has_ga i) i handle
