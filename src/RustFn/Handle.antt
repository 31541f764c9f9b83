-- ===== src/RustFn/Handle.antt =====
-- Handles of workers, and the monitors that a start spawns.
use becky.Base.{ℕ, zero, suc, ◌++◌, none, some, Bool, true, false, Result, ok, err}
use becky.Text.{Text, chars}
use becky.Text.Decimal.{decimal}
use becky.State.{ExitStatus, FxExecutionState, running, not_started, exited, error}
use becky.Os.{IoError}
use becky.Runtime.{Runtime}
use becky.RustFn.{
  FxRustFn, RustFnHandle, Monitor, child_monitor, pid_monitor, matching, mismatched, missing,
}
use becky.RustFn.Worker.{observe_worker_process}

-- How the code matches a result with no regard to what it holds.
abbrev waited : Result IoError ExitStatus → FxExecutionState
waited (ok status) = exited status
waited (err e) = error e.message

module _ {W : Type 0} (rt : Runtime W Monitor) where
  unfoldable pub mismatch_message : ℕ → Text → Text
  mismatch_message pid function =
      chars "pid "
      ++ (decimal pid
          ++ (chars " no longer matches rust function worker " ++ rt.format_debug function))

  -- The task of a worker that was spawned here.
  unfoldable pub monitor_child : ℕ → ℕ → W → W
  monitor_child child cell w =
      let (stop, w₁) = rt.cancelled w in
      elim stop [
        | true ↦ w₁
        | false ↦ let (r, w₂) = rt.os.wait child w₁ in rt.write_cell cell (waited r) w₂
      ]

  -- One round of the task of a worker that was found, which ends (`true`) or goes on.
  unfoldable pub monitor_round : ℕ → Text → Text → ℕ → ℕ → W → Bool × W
  unfolding mismatch_message
  monitor_round pid function worker_arg cell poll_interval w =
      let (seen, w₁) = observe_worker_process rt.os pid worker_arg function w in
      let (stop, w₂) = rt.cancelled w₁ in
      elim seen [
        | matching ↦ elim stop [ true ↦ (true, w₂) | false ↦ (false, rt.interval poll_interval w₂) ]
        | missing ↦ (true, rt.write_cell cell not_started w₁)
        | mismatched ↦ (true, rt.write_cell cell (error (mismatch_message pid function)) w₁)
      ]

  -- Its first rounds: it may go on for ever.
  unfoldable pub monitor_reattached_pid : ℕ → ℕ → Text → Text → ℕ → ℕ → W → Bool × W
  unfolding monitor_round
  monitor_reattached_pid zero pid function worker_arg cell poll_interval w = (false, w)
  monitor_reattached_pid (suc n) pid function worker_arg cell poll_interval w =
      let (ended, w') = monitor_round pid function worker_arg cell poll_interval w in
      elim ended [
        | true ↦ (true, w')
        | false ↦ monitor_reattached_pid n pid function worker_arg cell poll_interval w'
      ]

  unfoldable pub reattached_handle : ℕ → Text → Text → ℕ → W → RustFnHandle × W
  reattached_handle pid function worker_arg poll_interval w =
      let (cell, w₁) = rt.new_cell (running pid) w in
      let (task, w₂) = rt.spawn_task (pid_monitor pid function worker_arg cell poll_interval) w₁ in
      (
        record {
          pid = pid;
          function = function;
          reattached = true;
          worker_arg = worker_arg;
          latest_state = cell;
          monitor = some task;
        },
        w₂,
      )

  unfoldable pub owned_handle : FxRustFn → ℕ → ℕ → W → RustFnHandle × W
  owned_handle c child pid w =
      let (cell, w₁) = rt.new_cell (running pid) w in
      let (task, w₂) = rt.spawn_task (child_monitor child cell) w₁ in
      (
        record {
          pid = pid;
          function = c.function;
          reattached = false;
          worker_arg = c.worker_arg;
          latest_state = cell;
          monitor = some task;
        },
        w₂,
      )

  -- `RustFnHandle::stop_monitor`
  unfoldable pub stop_monitor : RustFnHandle → W → RustFnHandle × W
  stop_monitor h w = elim h.monitor [
    | none ↦ (h, w)
    | some task ↦ (record h { monitor = none }, rt.join_task task (rt.send_cancel task w))
  ]
