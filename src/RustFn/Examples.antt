-- ===== src/RustFn/Examples.antt =====
-- Runs of workers on a host in memory, and the theorems at concrete data.
use becky.Base.{ℕ, ◌≤◌, ◌≡◌, ◌≢◌, ◌↔◌, ◌⊎◌, refl, [], ◌∷◌, none, some, true, false, ok, err, map}
use becky.Base.{list_eq, nat_eq}
use becky.Text.{chars}
use becky.Text.Decimal.{parse_uint}
use becky.Text.Trim.{trim}
use becky.State.{running, stopped}
use becky.Os.Memory.{Host, memory_os}
use becky.Runtime.Memory.{memory_runtime, memory_runtime-KeepsTime}
use becky.SystemCommand.Signals.{process_exists}
use becky.RustFn.{Monitor, failure, pid_mismatch, stop_timeout}
use becky.RustFn.Registry.{run_worker_from_args, register, user_args}
use becky.RustFn.Registry.Dispatch.{Unmarked, run_worker_iff, run_worker_from_args-worker_args}
use becky.RustFn.Worker.{process_cmd_contains_worker, worker_args, observe_worker_process}
use becky.RustFn.Worker.Found.{IsWorkerLine, process_cmd_contains_worker_iff}
use becky.RustFn.PidFile.{read_pid_file, pid_file, pid_file_path}
use becky.RustFn.Exit.{wait_for_process_exit}
use becky.RustFn.Exit.Waits.{Loop, wait_for_process_exit_runs, wait_for_process_exit_gone}
use becky.RustFn.Handle.{reattached_handle}
use becky.RustFn.Control.{fx_start, fx_stop, fx_destroy, fx_status}
use becky.RustFn.Control.Laws.{
  fx_start_own_worker, fx_start_stranger, fx_destroy_stranger, fx_stop_stopped, fx_destroy_gone,
}
use becky.RustFn.Sample.{
  runtime, worker, worker_process, other_process, with_pid_file, handle, count_args,
}
use becky.SystemCommand.Sample.{empty_host}

-- Two functions may share a pid file.
shared_pid_file : pid_file_path [] (chars "a.b") ≡ pid_file_path [] (chars "a_b")
unfolding pid_file_path nat_eq
shared_pid_file = refl

-- A `--` of the user is dropped too.
drops_dashes :
    (run_worker_from_args
      ((chars "f", count_args) ∷ [])
      (map chars ("app" ∷ "worker" ∷ "f" ∷ "x" ∷ "--" ∷ "y" ∷ []))
      (chars "worker")
      empty_host).0
    ≡ ok (some (failure 2))
unfolding run_worker_from_args list_eq
drops_dashes = refl

attaches : (fx_status runtime handle (with_pid_file worker_process)).0 ≡ ok (running 42)
unfolding fx_status memory_os list_eq nat_eq memory_runtime observe_worker_process
attaches = refl

run_worker_iff_run :
    (run_worker_from_args {W = Host} [] (map chars ("app" ∷ "x" ∷ [])) (chars "worker") empty_host
      ≡ (ok none, empty_host))
    ↔ Unmarked (chars "worker") (map chars ("app" ∷ "x" ∷ []))
run_worker_iff_run = run_worker_iff [] (map chars ("app" ∷ "x" ∷ [])) (chars "worker") empty_host

app_is_no_marker : chars "app" ≢ worker.worker_arg
app_is_no_marker h = cc

run_worker_from_args-worker_args_example :
    run_worker_from_args
      ((chars "sync/all", count_args) ∷ [])
      (map chars ("app" ∷ "--becky-rust-fn" ∷ "sync/all" ∷ "fast" ∷ []))
      worker.worker_arg
      empty_host
    ≡ (ok (some (failure 1)), empty_host)
unfolding list_eq register worker_args user_args
run_worker_from_args-worker_args_example =
    run_worker_from_args-worker_args [] count_args worker (chars "app") empty_host app_is_no_marker

process_cmd_contains_worker_iff_run :
    (process_cmd_contains_worker worker_process.cmd worker.worker_arg worker.function ≡ true)
    ↔ IsWorkerLine worker_process.cmd worker.worker_arg worker.function
process_cmd_contains_worker_iff_run =
    process_cmd_contains_worker_iff worker_process.cmd worker.worker_arg worker.function

wait_for_process_exit_runs_example :
    (looks : ℕ) × (looks ≤ 101)
    × Loop runtime 42 0 5000 looks
        (with_pid_file worker_process)
        (wait_for_process_exit runtime 42 5000 (with_pid_file worker_process))
unfolding memory_runtime
wait_for_process_exit_runs_example =
    wait_for_process_exit_runs runtime (memory_runtime-KeepsTime Monitor) 42 5000
      (with_pid_file worker_process)

wait_for_process_exit_gone_run :
    (((wait_for_process_exit runtime 42 5000 empty_host).0 ≡ ok tt)
      × ((v : Host) × ((process_exists runtime.os 42 v).0 ≡ false)
          × ((wait_for_process_exit runtime 42 5000 empty_host).1
              ≡ (process_exists runtime.os 42 v).1)))
    ⊎ ((wait_for_process_exit runtime 42 5000 empty_host).0 ≡ err (stop_timeout 42 5000))
wait_for_process_exit_gone_run = wait_for_process_exit_gone runtime 42 5000 empty_host

file_of_worker : (read_pid_file runtime.os worker (with_pid_file worker_process)).0 ≡ ok (some 42)
unfolding read_pid_file memory_os parse_uint trim memory_runtime pid_file
file_of_worker = refl

fx_start_own_worker_example :
    let (h, w') =
      reattached_handle runtime 42 worker.function worker.worker_arg 2000
        (with_pid_file worker_process) in
    fx_start runtime worker (with_pid_file worker_process) ≡ (ok h, w')
unfolding read_pid_file memory_os memory_runtime worker_args
fx_start_own_worker_example =
    fx_start_own_worker runtime worker 42 worker_process (chars "app")
      (with_pid_file worker_process) file_of_worker refl refl

file_of_other : (read_pid_file runtime.os worker (with_pid_file other_process)).0 ≡ ok (some 42)
unfolding read_pid_file memory_os parse_uint trim memory_runtime pid_file
file_of_other = refl

other_line : process_cmd_contains_worker other_process.cmd worker.worker_arg worker.function ≡ false
unfolding process_cmd_contains_worker
other_line = refl

fx_start_stranger_run :
    fx_start runtime worker (with_pid_file other_process)
    ≡ (err (pid_mismatch 42 worker.function), with_pid_file other_process)
unfolding read_pid_file memory_os memory_runtime
fx_start_stranger_run =
    fx_start_stranger runtime worker 42 other_process (with_pid_file other_process) file_of_other
      refl other_line

fx_destroy_stranger_run :
    fx_destroy runtime worker (handle, with_pid_file other_process)
    ≡ (err (pid_mismatch 42 worker.function), (handle, with_pid_file other_process))
unfolding memory_os memory_runtime
fx_destroy_stranger_run =
    fx_destroy_stranger runtime worker handle (with_pid_file other_process) other_process refl
      other_line

stops : (fx_stop runtime worker (handle, with_pid_file worker_process)).0 ≡ ok tt
unfolding fx_stop memory_os list_eq nat_eq memory_runtime process_exists pid_file
stops = refl

fx_stop_stopped_run :
    let after = (fx_stop runtime worker (handle, with_pid_file worker_process)).1 in
    ((u : Host) × ((process_exists runtime.os 42 u).0 ≡ false))
    × (after.0.monitor ≡ none)
    × ((u : Host) × (after.1 ≡ runtime.write_cell 7 stopped u))
fx_stop_stopped_run = fx_stop_stopped runtime worker handle (with_pid_file worker_process) stops

destroys : (fx_destroy runtime worker (handle, with_pid_file worker_process)).0 ≡ ok tt
unfolding fx_destroy memory_os list_eq nat_eq memory_runtime observe_worker_process process_exists
    pid_file
destroys = refl

fx_destroy_gone_example :
    ((u : Host) × ((process_exists runtime.os 42 u).0 ≡ false))
    × ((fx_destroy runtime worker (handle, with_pid_file worker_process)).1.0.monitor ≡ none)
fx_destroy_gone_example =
    fx_destroy_gone runtime worker handle (with_pid_file worker_process) destroys
