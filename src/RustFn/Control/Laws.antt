-- ===== src/RustFn/Control/Laws.antt =====
-- What starts, stops and destroys of a worker do on each observation of its pid.
use becky.Base.{
  ℕ, ◌≡◌, ap, sym, ◌∙◌, arith, split_bind, on_world, ◌∷◌, none, some, true, false, map, Bool-cases,
}
use becky.Base.{inl, inr, ◌>>◌, ok, err, Option-cases}
use becky.Text.{Text}
use becky.State.{stopped}
use becky.Os.{utf8, Process, process, kill, term}
use becky.Runtime.{Runtime}
use becky.SystemCommand.Signals.{process_exists}
use becky.RustFn.{
  FxRustFn, RustFnHandle, RustFnError, pid_mismatch, Monitor, matching, default_stop_wait_timeout,
}
use becky.RustFn.Worker.{worker_args, process_cmd_contains_worker, observed, observe_worker_process}
use becky.RustFn.Worker.Found.{contains_worker-worker_args}
use becky.RustFn.PidFile.{read_pid_file, write_pid_file, remove_pid_file}
use becky.RustFn.Exit.{signal_process, wait_for_process_exit}
use becky.RustFn.Exit.Waits.{wait_for_process_exit_gone}
use becky.RustFn.Handle.{reattached_handle, stop_monitor}
use becky.RustFn.Control.{
  fx_start, spawn_worker, spawned, fx_stop, fx_destroy, after_exit, after_signal, after_kill,
  stop_monitor_of, write_stopped, kill_worker, kill_seen,
}

module _ {W : Type 0} (rt : Runtime W Monitor) (c : FxRustFn) where
  -- A start that reads a pid from the worker's file, and finds there a process that was launched as
  -- the worker of `c`, attaches to it: beside the handle's cell and its monitor nothing is made, so
  -- no second worker is spawned.
  pub fx_start_own_worker :
      (pid : ℕ) (p : Process) (exe : Text) (w : W)
      → let (found, w₁) = read_pid_file rt.os c w in
        let (table, w₂) = rt.os.new_all w₁ in
        let (h, w₃) =
          reattached_handle rt pid c.function c.worker_arg c.reattach_poll_interval w₂ in
        found ≡ ok (some pid)
        → process table pid ≡ some p
        → p.cmd ≡ map utf8 (exe ∷ worker_args c)
        → fx_start rt c w ≡ (ok h, w₃)
  unfolding fx_start observe_worker_process observed
  fx_start_own_worker pid p exe w f e line =
      let same : process_cmd_contains_worker p.cmd c.worker_arg c.function ≡ true =
        rw line (contains_worker-worker_args c exe) in
      ground arith

  -- A start that reads the pid of a process that is no worker of `c` fails: it removes nothing and
  -- spawns nothing.
  pub fx_start_stranger :
      (pid : ℕ) (p : Process) (w : W)
      → let (found, w₁) = read_pid_file rt.os c w in
        let (table, w₂) = rt.os.new_all w₁ in
        found ≡ ok (some pid)
        → process table pid ≡ some p
        → process_cmd_contains_worker p.cmd c.worker_arg c.function ≡ false
        → fx_start rt c w ≡ (err (pid_mismatch pid c.function), w₂)
  unfolding fx_start observe_worker_process observed
  fx_start_stranger pid p w f e other = ground arith

  -- A start that reads the pid of no process removes the file and spawns a worker.
  pub fx_start_stale :
      (pid : ℕ) (w : W)
      → let (found, w₁) = read_pid_file rt.os c w in
        let (table, w₂) = rt.os.new_all w₁ in
        found ≡ ok (some pid)
        → process table pid ≡ none
        → fx_start rt c w ≡ (remove_pid_file rt.os c >> spawn_worker rt c) w₂
  unfolding fx_start observe_worker_process observed
  fx_start_stale pid w f e = ground arith

  -- A worker whose pid cannot be written down is killed, and the start fails with that error.
  pub spawned_unwritten :
      (child pid : ℕ) (e : RustFnError) (w : W)
      → let (id, w₁) = rt.os.child_id child w in
        let (written, w₂) = write_pid_file rt.os c pid w₁ in
        id ≡ some pid
        → written ≡ err e
        → spawned rt c child w ≡ (err e, (rt.os.kill_child child w₂).1)
  unfolding spawned
  spawned_unwritten child pid e w i h = ground arith

module _ {W : Type 0} (rt : Runtime W Monitor) (c : FxRustFn) (h : RustFnHandle) (w : W) where
  monitor-stop_monitor : (v : W) → (stop_monitor rt h v).0.monitor ≡ none
  unfolding stop_monitor
  monitor-stop_monitor v = elim (Option-cases h.monitor) [
    | inl e ↦ ground arith
    | inr (task, e) ↦ ground arith
  ]

  same_cell : (v : W) → (stop_monitor rt h v).0.latest_state ≡ h.latest_state
  unfolding stop_monitor
  same_cell v = elim (Option-cases h.monitor) [
    | inl e ↦ ground arith
    | inr (task, e) ↦ ground arith
  ]

  -- Destroying spares a process that is no worker of the handle: the call fails, and the process
  -- table is all that it asked for.
  pub fx_destroy_stranger :
      (p : Process)
      → let (table, w₁) = rt.os.new_all w in
        process table h.pid ≡ some p
        → process_cmd_contains_worker p.cmd h.worker_arg h.function ≡ false
        → fx_destroy rt c (h, w) ≡ (err (pid_mismatch h.pid h.function), (h, w₁))
  unfolding fx_destroy observe_worker_process observed
  fx_destroy_stranger p e other = ground arith

  wait-gone :
      (v : W)
      → (wait_for_process_exit rt h.pid default_stop_wait_timeout v).0 ≡ ok tt
      → (u : W) × ((process_exists rt.os h.pid u).0 ≡ false)
  wait-gone v e = elim (wait_for_process_exit_gone rt h.pid default_stop_wait_timeout v) [
    | inl (o, (u, gone, same)) ↦ (u, gone)
    | inr e' ↦ absurd cc
  ]

  after_exit_ok :
      (v : W)
      → (after_exit rt c (h, v)).0 ≡ ok tt
      → ((after_exit rt c (h, v)).1.0.monitor ≡ none)
        × ((u : W) × ((after_exit rt c (h, v)).1.1 ≡ rt.write_cell h.latest_state stopped u))
  unfolding after_exit stop_monitor_of write_stopped
  after_exit_ok v e =
      let (_, _, e₁) =
        split_bind (on_world (remove_pid_file rt.os c)) (λ _. write_stopped rt)
          (stop_monitor rt h v) tt e in
      let removed = (remove_pid_file rt.os c (stop_monitor rt h v).1).1 in
      (
        ap (λ r. r.1.0.monitor) e₁ ∙ monitor-stop_monitor v,
        (_, ap (λ r. r.1.1) e₁ ∙ ap (λ cell. rt.write_cell cell stopped removed) (same_cell v)),
      )

  after_signal_ok :
      (v : W)
      → (after_signal rt c h (h, v)).0 ≡ ok tt
      → ((u : W) × ((process_exists rt.os h.pid u).0 ≡ false))
        × ((after_signal rt c h (h, v)).1.0.monitor ≡ none)
        × ((u : W) × ((after_signal rt c h (h, v)).1.1 ≡ rt.write_cell h.latest_state stopped u))
  unfolding after_signal
  after_signal_ok v e =
      let (_, waited, e₁) =
        split_bind (on_world (wait_for_process_exit rt h.pid default_stop_wait_timeout))
          (λ _. after_exit rt c) (h, v) tt e in
      let (none_left, (u, last)) = after_exit_ok _ (ap (λ r. r.0) (sym e₁) ∙ e) in
      (wait-gone v waited, ap (λ r. r.1.0.monitor) e₁ ∙ none_left, (u, ap (λ r. r.1.1) e₁ ∙ last))

  -- A stop that succeeds has seen the pid with no process, has ended the handle's monitor, and has
  -- written `Stopped` into the handle's cell last.
  pub fx_stop_stopped :
      (fx_stop rt c (h, w)).0 ≡ ok tt
      → ((u : W) × ((process_exists rt.os h.pid u).0 ≡ false))
        × ((fx_stop rt c (h, w)).1.0.monitor ≡ none)
        × ((u : W) × ((fx_stop rt c (h, w)).1.1 ≡ rt.write_cell h.latest_state stopped u))
  unfolding fx_stop
  fx_stop_stopped e =
      let (_, _, e₁) =
        split_bind (on_world (signal_process rt.os h.pid term)) (λ _. after_signal rt c h) (h, w) tt
          e in
      let (gone, none_left, (u, last)) = after_signal_ok _ (ap (λ r. r.0) (sym e₁) ∙ e) in
      (gone, ap (λ r. r.1.0.monitor) e₁ ∙ none_left, (u, ap (λ r. r.1.1) e₁ ∙ last))

  matching-gone :
      (v : W)
      → (kill_seen rt h matching v).0 ≡ ok tt
      → (u : W) × ((process_exists rt.os h.pid u).0 ≡ false)
  unfolding kill_seen
  matching-gone v e =
      let (_, _, e₁) =
        split_bind (signal_process rt.os h.pid kill)
          (λ _. wait_for_process_exit rt h.pid default_stop_wait_timeout) v tt e in
      wait-gone _ (ap (λ r. r.0) (sym e₁) ∙ e)

  kill_worker-gone :
      (kill_worker rt h w).0 ≡ ok tt → (u : W) × ((process_exists rt.os h.pid u).0 ≡ false)
  unfolding kill_worker observe_worker_process observed
  kill_worker-gone e = elim (Option-cases (process (rt.os.new_all w).0 h.pid)) [
    | inl lost ↦ (w, unfold process_exists in ground arith)
    | inr (p, here) ↦
        elim (Bool-cases (process_cmd_contains_worker p.cmd h.worker_arg h.function)) [
          | inl same ↦ matching-gone (rt.os.new_all w).1 (ground arith)
          | inr other ↦ absurd (unfold kill_seen in ground arith)
        ]
  ]

  -- Destroying succeeds only when the pid was seen with no process, and it has ended the handle's
  -- monitor then.
  pub fx_destroy_gone :
      (fx_destroy rt c (h, w)).0 ≡ ok tt
      → ((u : W) × ((process_exists rt.os h.pid u).0 ≡ false))
        × ((fx_destroy rt c (h, w)).1.0.monitor ≡ none)
  unfolding fx_destroy after_kill stop_monitor_of
  fx_destroy_gone e =
      let (_, killed, e₁) =
        split_bind (on_world (kill_worker rt h)) (λ _. after_kill rt c) (h, w) tt e in
      (kill_worker-gone killed, ap (λ r. r.1.0.monitor) e₁ ∙ monitor-stop_monitor _)
