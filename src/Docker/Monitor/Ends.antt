-- ===== src/Docker/Monitor/Ends.antt =====
-- When the task that follows a container ends.
use becky.Base.{ℕ, zero, suc, ◌≡◌, refl, arith, true, Bool-cases, inl, inr, ok, err, Result}
use becky.Text.{Text}
use becky.Os.{IoError}
use becky.State.{FxExecutionState, running}
use becky.Docker.{MonitorWaitAction}
use becky.Docker.Cli.{DockerHost}
use becky.Docker.Monitor.{
  wait_action, wait_spawned, wait_for_container_stop, pause, after_wait, follow, monitor_round,
  monitor_container,
}

module _ {W : Type 0} (host : DockerHost W) where
  -- The channel's arm of some `select!` was the one to win.
  abbrev pub WasCancelled : Type 0
  WasCancelled = (v : W) × ((host.runtime.cancelled v).0 ≡ true)

  pause-WasCancelled : (w : W) → (pause host w).0 ≡ true → WasCancelled
  unfolding pause
  pause-WasCancelled w h = (w, ground arith)

  wait_spawned-WasCancelled :
      (child : Result IoError ℕ) (w : W)
      → (wait_spawned host child w).0 ≡ MonitorWaitAction.cancelled
      → WasCancelled
  unfolding wait_spawned wait_action
  wait_spawned-WasCancelled (err e) w h = absurd cc
  wait_spawned-WasCancelled (ok child) w h = (w, ground arith)

  cancelled_of_after :
      (name : Text) (cell : ℕ) (action : MonitorWaitAction) (w : W)
      → (after_wait host name cell action w).0 ≡ true
      → action ≡ MonitorWaitAction.cancelled
  unfolding after_wait
  cancelled_of_after name cell MonitorWaitAction.stopped w h = absurd cc
  cancelled_of_after name cell MonitorWaitAction.cancelled w h = refl
  cancelled_of_after name cell MonitorWaitAction.retry w h = absurd cc

  wait-WasCancelled :
      (name : Text) (w : W)
      → (wait_for_container_stop host name w).0 ≡ MonitorWaitAction.cancelled
      → WasCancelled
  unfolding wait_for_container_stop
  wait-WasCancelled name w h = wait_spawned-WasCancelled _ _ h

  follow-WasCancelled :
      (name : Text) (cell : ℕ) (state : FxExecutionState) (w : W)
      → (follow host name cell state w).0 ≡ true
      → WasCancelled
  unfolding follow
  follow-WasCancelled name cell (running pid) w h =
      let (action, w') = wait_for_container_stop host name w in
      wait-WasCancelled name w (cancelled_of_after name cell action w' h)
  follow-WasCancelled name cell _ w h = pause-WasCancelled w h

  -- However many rounds it takes, and whatever docker answers meanwhile, the monitor of a container
  -- ends only when its channel was cancelled: no failed inspection, no container that stopped and
  -- no `docker wait` that failed ends it.
  pub monitor_container-WasCancelled :
      (n : ℕ) (name : Text) (cell : ℕ) (w : W)
      → (monitor_container host n name cell w).0 ≡ true
      → WasCancelled
  unfolding monitor_container monitor_round
  monitor_container-WasCancelled zero name cell w h = absurd cc
  monitor_container-WasCancelled (suc n) name cell w h =
      elim (Bool-cases (monitor_round host name cell w).0) [
        | inl ended ↦ follow-WasCancelled name cell _ _ ended
        | inr goes_on ↦
            monitor_container-WasCancelled n name cell (monitor_round host name cell w).1
              (ground arith)
      ]
