-- ===== src/RustFn/Control.antt =====
-- `FxControl` for `FxRustFn`, and the accounting.
pub mod Laws
use becky.Base.{ℕ, zero, suc, List, [], ◌++◌, Option, none, some, Bool, true, false}
use becky.Base.{Result, ok, err, Action, pure, fail, ◌>>=◌, ◌>>◌, on_world, catch}
use becky.Base.{if◌then◌else◌}
use becky.Text.{Text, chars}
use becky.Text.Decimal.{decimal}
use becky.State.{ExitStatus, FxExecutionState, running, stopped, not_started, exited, error}
use becky.Os.{IoError, Process, process, term, kill, Os}
use becky.Runtime.{Runtime}
use becky.RustFn.{
  FxRustFn, RustFnHandle, RustFnError, io, current_exe, pid_mismatch, missing_pid, Monitor,
  child_monitor, pid_monitor, ObservedProcess, matching, mismatched, missing,
  default_stop_wait_timeout,
}
use becky.RustFn.Worker.{worker_args, observe_worker_process}
use becky.RustFn.Handle.{mismatch_message, reattached_handle, owned_handle, stop_monitor}
use becky.RustFn.PidFile.{read_pid_file, write_pid_file, remove_pid_file}
use becky.RustFn.Exit.{signal_process, wait_for_process_exit}

-- A method of a handle changes the handle beside the host.
abbrev pub Method : Type 0 → Type 0 → Type 0
Method W A = Action (RustFnHandle × W) RustFnError A

module _ {W : Type 0} (rt : Runtime W Monitor) where
  executable : FxRustFn → Action W RustFnError Text
  executable c = elim c.executable [
    | some path ↦ pure path
    | none ↦ catch RustFnError.current_exe rt.current_exe
  ]

  written : FxRustFn → ℕ → ℕ → Action W RustFnError RustFnHandle
  unfolding write_pid_file owned_handle
  written c child pid w =
      let (r, w₁) = write_pid_file rt.os c pid w in
      elim r [
        | ok _ ↦ let (h, w₂) = owned_handle rt c child pid w₁ in (ok h, w₂)
        | err e ↦ let (killed, w₂) = rt.os.kill_child child w₁ in (err e, w₂)
      ]

  unfoldable pub spawned : FxRustFn → ℕ → Action W RustFnError RustFnHandle
  unfolding written
  spawned c child w =
      let (id, w₁) = rt.os.child_id child w in
      elim id [ none ↦ (err missing_pid, w₁) | some pid ↦ written c child pid w₁ ]

  unfoldable pub spawn_worker : FxRustFn → Action W RustFnError RustFnHandle
  unfolding executable spawned
  spawn_worker c = do
    program ← executable c
    child ← catch io (
        rt.os.spawn (record {
          program = program;
          args = worker_args c;
          env = c.env;
          stdout = none;
          stderr = none;
        }))
    spawned c child

  start_from : FxRustFn → ℕ → ObservedProcess → Action W RustFnError RustFnHandle
  unfolding reattached_handle remove_pid_file spawn_worker
  start_from c pid matching w =
      let (h, w') = reattached_handle rt pid c.function c.worker_arg c.reattach_poll_interval w in
      (ok h, w')
  start_from c pid mismatched w = (err (pid_mismatch pid c.function), w)
  start_from c pid missing w = (remove_pid_file rt.os c >> spawn_worker c) w

  start_found : FxRustFn → Option ℕ → Action W RustFnError RustFnHandle
  unfolding start_from spawn_worker
  start_found c none w = spawn_worker c w
  start_found c (some pid) w =
      let (seen, w') = observe_worker_process rt.os pid c.worker_arg c.function w in
      start_from c pid seen w'

  unfoldable pub fx_start : FxRustFn → Action W RustFnError RustFnHandle
  unfolding start_found
  fx_start c = read_pid_file rt.os c >>= start_found c

  unfoldable pub fx_status : RustFnHandle → Action W RustFnError FxExecutionState
  unfolding mismatch_message
  fx_status h w =
      let (seen, w₁) = observe_worker_process rt.os h.pid h.worker_arg h.function w in
      elim seen [
        | matching ↦ (ok (running h.pid), rt.write_cell h.latest_state (running h.pid) w₁)
        | mismatched ↦ (
          err (pid_mismatch h.pid h.function),
          rt.write_cell h.latest_state (error (mismatch_message rt h.pid h.function)) w₁,
        )
        | missing ↦ let (state, w₂) = rt.read_cell h.latest_state w₁ in (ok state, w₂)
      ]

  stop_monitor_of : Method W (Unit {0})
  unfolding stop_monitor
  stop_monitor_of (h, w) = (ok tt, stop_monitor rt h w)

  write_stopped : Method W (Unit {0})
  write_stopped (h, w) = (ok tt, (h, rt.write_cell h.latest_state stopped w))

  after_exit : FxRustFn → Method W (Unit {0})
  unfolding stop_monitor_of write_stopped remove_pid_file
  after_exit c = do stop_monitor_of; on_world (remove_pid_file rt.os c); write_stopped

  after_signal : FxRustFn → RustFnHandle → Method W (Unit {0})
  unfolding wait_for_process_exit after_exit
  after_signal c h = do
    on_world (wait_for_process_exit rt h.pid default_stop_wait_timeout)
    after_exit c

  unfoldable pub fx_stop : FxRustFn → Method W (Unit {0})
  unfolding signal_process after_signal
  fx_stop c (h, w) = (on_world (signal_process rt.os h.pid term) >> after_signal c h) (h, w)

  kill_seen : RustFnHandle → ObservedProcess → Action W RustFnError (Unit {0})
  unfolding signal_process wait_for_process_exit
  kill_seen h matching = do
    signal_process rt.os h.pid kill
    wait_for_process_exit rt h.pid default_stop_wait_timeout
  kill_seen h mismatched = fail (pid_mismatch h.pid h.function)
  kill_seen h missing = pure tt

  kill_worker : RustFnHandle → Action W RustFnError (Unit {0})
  unfolding kill_seen
  kill_worker h w =
      let (seen, w') = observe_worker_process rt.os h.pid h.worker_arg h.function w in
      kill_seen h seen w'

  after_kill : FxRustFn → Method W (Unit {0})
  unfolding stop_monitor_of remove_pid_file
  after_kill c = do stop_monitor_of; on_world (remove_pid_file rt.os c)

  unfoldable pub fx_destroy : FxRustFn → Method W (Unit {0})
  unfolding kill_worker after_kill
  fx_destroy c (h, w) = (on_world (kill_worker h) >> after_kill c) (h, w)

  unfoldable pub fx_allocate : FxRustFn → Action W RustFnError (Unit {0})
  fx_allocate c = catch io (rt.os.create_dir_all c.run_dir)

-- `process_metric`, for a number that the process table holds.
unfoldable pub process_metric : {W : Type 0} → Os W → ℕ → (Process → ℕ) → W → ℕ × W
process_metric os pid f w =
    let (table, w') = os.new_all w in (elim (process table pid) [ none ↦ 0 | some p ↦ f p ], w')
