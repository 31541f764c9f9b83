-- ===== src/Qemu/Instance/Control.antt =====
-- `FxControl` for `QemuInstance`, with `FxVerify`, `StatsCollect` and `StateCollect`.
pub mod Started
use becky.Base.{
  ℕ, Bool, true, false, Option, none, some, List, [], ◌∷◌, ◌++◌, ◌||◌, not, if◌then◌else◌,
}
use becky.Base.{Result, ok, err, map_err, map_ok, Action, pure, fail, ◌>>=◌, ◌>>◌, catch, on_world}
use becky.Text.{Text, chars}
use becky.Id.{UuidCrate, FxId, to_string}
use becky.State.{FxExecutionState}
use becky.Os.{IoError, FilePath, join_name, Process, process, Os}
use becky.Os.Paths.{display, push}
use becky.SystemCommand.{FxSystemProcessRunning, FxSysCommandError}
use becky.SystemCommand.Control
use becky.Qemu.Errors.{
  SpawnError, system_command, timed_out, AllocateError, storage_not_ok, CallApiError, executor,
  unsupported_command, unsupported_guest_agent_command, no_ga_available, ArchiveError,
  unsupported_policy, VerifyError,
}
use becky.Qemu.Config.{QemuCrate, QemuArchivePolicy, state_only, disabled, common_of}
use becky.Qemu.Manager.Instances.{Verification, matches, unknown}
use becky.Qemu.Paths.{vm_path, vm_dir, pid_path_s, ctl_socket_path_s, archive_root_path}
use becky.Qemu.Instance.{
  QemuInstance, QemuHandle, RunState, StatusInfo, CommandText, command_from_qemu,
  live_pid_from_pidfile, reconcile_existing_files, state_from_qmp_status, supported_command,
  supported_ga_command, root_of, has_ga, qmp_connect_timeout_secs, qga_command_timeout_secs,
  uds_retry_interval_millis,
}
use becky.Qemu.Instance.Calls.{make_dir, status_result, status_kept, status_or_old, either}
use becky.Qemu.Instance.Comm.{InstanceHost, Spawn, connected}

-- A method changes the instance beside the host.
abbrev pub Method : Type 0 → Type 0 → Type 0 → Type 0 → Type 0
Method I W E A = Action (I × W) E A

module _ {W : Type 0} {U : UuidCrate} {B : QemuCrate} {Q : Type 0} where
  module _ (host : InstanceHost (FxId U) W) where
    -- What the attachment makes of the connection to a machine that runs.
    attach_with :
        CommandText Q → FxId U → QemuInstance U B Q → Option ℕ → Spawn W (Option QemuHandle)
    unfolding connected
    attach_with text fx_id i none = pure none
    attach_with text fx_id i (some ctl) = do
      handle ← connected host text fx_id i ctl
      pure (some handle)

    -- Without its control socket a live machine is not attached.
    attach_live : CommandText Q → FxId U → QemuInstance U B Q → Spawn W (Option QemuHandle)
    unfolding attach_with
    attach_live text fx_id i w =
        let (found, w₁) = host.exists (ctl_socket_path_s U (root_of i) i.fx_id) w in
        let (ctl, w₂) =
          host.connect_ctl (ctl_socket_path_s U (root_of i) i.fx_id) (qmp_connect_timeout_secs i)
            (uds_retry_interval_millis i) w₁ in
        elim found [ false ↦ (ok none, w₁) | true ↦ attach_with text fx_id i ctl w₂ ]

    unfoldable pub try_attach_existing :
        CommandText Q → FxId U → QemuInstance U B Q → Spawn W (Option QemuHandle)
    unfolding live_pid_from_pidfile reconcile_existing_files attach_live
    try_attach_existing text fx_id i w =
        let (live, w') = live_pid_from_pidfile host.os (pid_path_s U (root_of i) i.fx_id) w in
        elim live [
          | none ↦ (ok none, reconcile_existing_files host.os U (root_of i) i.fx_id w')
          | some pid ↦ attach_live text fx_id i w'
        ]

    -- `self.cmd` is made anew, with its outputs under the log directory.
    fresh_command : CommandText Q → Method (QemuInstance U B Q) W SpawnError (Unit {0})
    fresh_command text (i, w) =
        let c = command_from_qemu text i.qemu in
        let log = vm_dir U (root_of i) i.fx_id (chars "log") in
        let c' = record c {
          stdout_path = some (join_name log (chars "qemu_stdout.log"));
          stderr_path = some (join_name log (chars "qemu_stderr.log"));
        } in
        (ok tt, (record i { cmd = c' }, w))

    start_command : FxId U → Method (QemuInstance U B Q) W SpawnError FxSystemProcessRunning
    unfolding Control.fx_start
    start_command fx_id (i, w) =
        let (r, (c, w')) = Control.fx_start host.os U fx_id (i.cmd, w) in
        (map_err system_command r, (record i { cmd = c }, w'))

    connect_started : CommandText Q → FxId U → Method (QemuInstance U B Q) W SpawnError QemuHandle
    unfolding connected
    connect_started text fx_id (i, w) =
        let (ctl, w₁) =
          host.connect_ctl (ctl_socket_path_s U (root_of i) i.fx_id) (qmp_connect_timeout_secs i)
            (uds_retry_interval_millis i) w in
        let (r, w₂) = elim ctl as (λ _. Result SpawnError QemuHandle × W) [
          | none ↦ (err timed_out, w₁)
          | some api ↦ connected host text fx_id i api w₁
        ] in
        (r, (i, w₂))

    make_log_dir : Method (QemuInstance U B Q) W SpawnError (Unit {0})
    make_log_dir (i, w) =
        let (r, w') = host.os.create_dir_all (vm_dir U (root_of i) i.fx_id (chars "log")) w in
        (map_err SpawnError.io r, (i, w'))

    start_unless :
        CommandText Q
        → FxId U
        → Option QemuHandle
        → Method (QemuInstance U B Q) W SpawnError QemuHandle
    unfolding make_log_dir fresh_command start_command connect_started
    start_unless text fx_id (some handle) = pure handle
    start_unless text fx_id none = do
      make_log_dir
      fresh_command text
      start_command fx_id
      connect_started text fx_id

    unfoldable pub fx_start :
        CommandText Q → FxId U → Method (QemuInstance U B Q) W SpawnError QemuHandle
    unfolding try_attach_existing start_unless
    fx_start text fx_id (i, w) =
        let (r, w') = try_attach_existing text fx_id i w in
        elim r [ err x ↦ (err x, (i, w')) | ok attached ↦ start_unless text fx_id attached (i, w') ]

    unfoldable pub fx_allocate : FxId U → QemuInstance U B Q → Action W AllocateError (Unit {0})
    unfolding make_dir to_string push
    fx_allocate fx_id i = do
      make_dir host (vm_path U (root_of i) i.fx_id)
      make_dir host (vm_dir U (root_of i) i.fx_id (chars "log"))
      make_dir host (vm_dir U (root_of i) i.fx_id (chars "run"))
      make_dir host (push i.system_configuration.vm_data_root_path (to_string U i.fx_id))
      catch (λ x. storage_not_ok) (host.storage_create fx_id)

    unfoldable pub fx_status :
        QemuHandle → Method (QemuInstance U B Q) W CallApiError FxExecutionState
    unfolding status_result status_kept
    fx_status handle (i, w) =
        let (r, w') = host.query_status handle.ctl w in
        (status_result host handle.process.pid r, (record i { status = status_kept host r }, w'))

    unfoldable pub state_collect :
        QemuHandle → Method (QemuInstance U B Q) W CallApiError FxExecutionState
    unfolding status_result status_or_old
    state_collect handle (i, w) =
        let (r, w') = host.query_status handle.ctl w in
        (
          status_result host handle.process.pid r,
          (record i { status = status_or_old host i.status r }, w'),
        )

    unfoldable pub fx_op_verify :
        QemuHandle → Method (QemuInstance U B Q) W VerifyError Verification
    unfolding status_or_old
    fx_op_verify handle (i, w) =
        let (table, w₁) = host.os.new_all w in
        let (r, w₂) = host.query_status handle.ctl w₁ in
        elim (process table handle.process.pid) [
          | none ↦ (ok unknown, (i, w₁))
          | some p ↦ (
            map_ok matches (map_err (λ x. VerifyError.call_api_error (executor x)) r),
            (record i { status = status_or_old host i.status r }, w₂),
          )
        ]

    save_snapshot : QemuInstance U B Q → QemuHandle → Bool → Action W ArchiveError FilePath
    unfolding to_string display
    save_snapshot i handle false =
        fail (ArchiveError.call_api_error (unsupported_command (chars "snapshot-save")))
    save_snapshot i handle true = do
      let path = join_name (archive_root_path U (root_of i) i.fx_id) (chars "vmstate.snap")
      catch (λ x. ArchiveError.call_api_error (executor x))
          (host.snapshot_save handle.ctl (chars "becky-" ++ to_string U i.fx_id) (display path))
      pure path

    archive_by :
        QemuArchivePolicy → QemuInstance U B Q → QemuHandle → Action W ArchiveError FilePath
    unfolding save_snapshot supported_command
    archive_by disabled i handle =
        fail (unsupported_policy (chars "archive disabled by QEMU archive policy"))
    archive_by state_only i handle = do
      catch ArchiveError.io (host.os.create_dir_all (archive_root_path U (root_of i) i.fx_id))
      save_snapshot i handle (either host handle "snapshot-save" "snapshot_save")

    unfoldable pub fx_archive : QemuInstance U B Q → QemuHandle → Action W ArchiveError FilePath
    unfolding archive_by
    fx_archive i handle =
        archive_by (common_of B i.machine_configuration.conf).archive_policy i handle
