-- ===== src/Qemu/Instance/Calls.antt =====
-- becky-fx-qemu/src/instance.rs: the calls of a machine's QMP and of its guest agent.
use Prim.Native.String.{String}
use becky.Base.{ℕ, Bool, false, Option, none, some, ◌||◌, if◌then◌else◌}
use becky.Base.{Result, ok, err, map_err, Action, fail, catch}
use becky.Text.{Text, chars}
use becky.State.{FxExecutionState}
use becky.Os.{FilePath}
use becky.Qemu.Errors.{
  AllocateError, CallApiError, executor, timed_out, unsupported_command,
  unsupported_guest_agent_command, no_ga_available,
}
use becky.Qemu.Instance.{
  QemuHandle, RunState, StatusInfo, state_from_qmp_status, supported_command, supported_ga_command,
}
use becky.Qemu.Instance.Comm.{InstanceHost}

module _ {K W : Type 0} (host : InstanceHost K W) where
  unfoldable pub make_dir : FilePath → Action W AllocateError (Unit {0})
  make_dir path = catch AllocateError.io (host.os.create_dir_all path)

  unfoldable pub status_result : ℕ → Result Text StatusInfo → Result CallApiError FxExecutionState
  unfolding state_from_qmp_status
  status_result pid (ok status) = ok (state_from_qmp_status status pid)
  status_result pid (err x) = err (executor x)

  -- After an error the status is that of an I/O error.
  unfoldable pub status_kept : Result Text StatusInfo → StatusInfo
  status_kept (ok status) = status
  status_kept (err x) = record { running = false; status = RunState.io_error }

  -- `state_collect`, which keeps the old status after an error.
  unfoldable pub status_or_old : StatusInfo → Result Text StatusInfo → StatusInfo
  status_or_old old (ok status) = status
  status_or_old old (err x) = old

  abbrev pub stat_collect : QemuHandle → Action W CallApiError (Unit {0})
  stat_collect handle = catch executor (host.query_block handle.ctl)

  abbrev pub either : QemuHandle → String → String → Bool
  unfolding supported_command
  either handle a b = supported_command handle (chars a) || supported_command handle (chars b)

  unfoldable pub fx_stop : QemuHandle → Action W CallApiError (Unit {0})
  unfolding supported_command
  fx_stop handle =
      if either handle "system_powerdown" "system-powerdown"
      then catch executor (host.system_powerdown handle.ctl)
      else fail (unsupported_command (chars "system_powerdown"))

  unfoldable pub fx_destroy : QemuHandle → Action W CallApiError (Unit {0})
  fx_destroy handle = catch executor (host.quit handle.ctl)

  -- `call_ga_api`, of a call that takes the seconds it may last.
  ga_result : {A : Type 0} → Option (Result Text A) → Result CallApiError A
  ga_result none = err timed_out
  ga_result (some r) = map_err executor r

  unfoldable pub call_ga_api :
      {A : Type 0}
      → (ℕ → ℕ → W → Option (Result Text A) × W)
      → ℕ
      → Option ℕ
      → Action W CallApiError A
  unfolding ga_result
  call_ga_api call timeout none w = (err no_ga_available, w)
  call_ga_api call timeout (some qga) w = let (r, w') = call timeout qga w in (ga_result r, w')

  unfoldable pub call_supported_ga_api :
      {A : Type 0}
      → Text
      → (ℕ → ℕ → W → Option (Result Text A) × W)
      → ℕ
      → QemuHandle
      → Action W CallApiError A
  unfolding call_ga_api supported_ga_command
  call_supported_ga_api name call timeout handle =
      if supported_ga_command handle name
      then call_ga_api call timeout handle.ga
      else fail (unsupported_guest_agent_command name)
