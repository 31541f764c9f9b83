-- ===== src/Docker/Monitor.antt =====
-- The task that follows a container, and the handle that it belongs to.
pub mod Ends
use becky.Base.{ℕ, zero, suc, [], ◌∷◌, some, none, Bool, true, false, ◌==◌, nat_eq}
use becky.Base.{Result, ok, err, if◌then◌else◌}
use becky.Text.{Text, chars}
use becky.State.{FxExecutionState, running, unknown, ExitStatus}
use becky.Os.{IoError}
use becky.Docker.{
  docker_bin, docker_monitor_poll_interval, DockerContainerHandle, DockerInspectContainer,
  FxDockerError, MonitorTask, container_monitor, MonitorWaitAction,
}
use becky.Docker.Cli.{DockerHost, inspect_container}
use becky.Docker.Inspect.{inspect_to_state, trim_docker_name}

wait_action : Result IoError ExitStatus → MonitorWaitAction
unfolding nat_eq
wait_action (ok status) = if status == 0 then MonitorWaitAction.stopped else MonitorWaitAction.retry
wait_action (err e) = MonitorWaitAction.retry

module _ {W : Type 0} (host : DockerHost W) where
  wait_spawned : Result IoError ℕ → W → MonitorWaitAction × W
  unfolding wait_action
  wait_spawned (err e) w = (MonitorWaitAction.retry, w)
  wait_spawned (ok child) w =
      let (stop, w₁) = host.runtime.cancelled w in
      elim stop [
        | true ↦
            let (killed, w₂) = host.runtime.os.kill_child child w₁ in
            (MonitorWaitAction.cancelled, w₂)
        | false ↦ let (r, w₂) = host.runtime.os.wait child w₁ in (wait_action r, w₂)
      ]

  unfoldable pub wait_for_container_stop : Text → W → MonitorWaitAction × W
  unfolding wait_spawned
  wait_for_container_stop name w =
      let (child, w') =
        host.runtime.os.spawn
          (record {
            program = docker_bin;
            args = chars "wait" ∷ name ∷ [];
            env = [];
            stdout = none;
            stderr = none;
          })
          w in
      wait_spawned child w'

  -- A pause that the channel may end, and the loop with it.
  pause : W → Bool × W
  pause w =
      let (stop, w') = host.runtime.cancelled w in
      elim stop [
        | true ↦ (true, w')
        | false ↦ (false, host.runtime.interval docker_monitor_poll_interval w')
      ]

  seen_state : Result FxDockerError DockerInspectContainer → FxExecutionState
  unfolding inspect_to_state
  seen_state (ok inspect) = inspect_to_state inspect
  seen_state (err e) = unknown

  unfoldable pub observe_into : Text → ℕ → W → FxExecutionState × W
  unfolding seen_state
  observe_into name cell w =
      let (r, w') = inspect_container host name w in
      (seen_state r, host.runtime.write_cell cell (seen_state r) w')

  after_wait : Text → ℕ → MonitorWaitAction → W → Bool × W
  unfolding observe_into
  after_wait name cell MonitorWaitAction.stopped w =
      let (state, w') = observe_into name cell w in (false, w')
  after_wait name cell MonitorWaitAction.cancelled w = (true, w)
  after_wait name cell MonitorWaitAction.retry w =
      (false, host.runtime.os.sleep docker_monitor_poll_interval w)

  follow : Text → ℕ → FxExecutionState → W → Bool × W
  unfolding wait_for_container_stop after_wait pause
  follow name cell (running pid) w =
      let (action, w') = wait_for_container_stop name w in after_wait name cell action w'
  follow name cell _ w = pause w

  -- One round of the loop, which ends it (`true`) or not.
  unfoldable pub monitor_round : Text → ℕ → W → Bool × W
  unfolding observe_into follow
  monitor_round name cell w =
      let (state, w') = observe_into name cell w in follow name cell state w'

  -- The first rounds: the loop goes on until it is cancelled.
  unfoldable pub monitor_container : ℕ → Text → ℕ → W → Bool × W
  unfolding monitor_round
  monitor_container zero name cell w = (false, w)
  monitor_container (suc n) name cell w =
      let (ended, w') = monitor_round name cell w in
      elim ended [ true ↦ (true, w') | false ↦ monitor_container n name cell w' ]

  unfoldable pub monitor_handle : DockerInspectContainer → Bool → W → DockerContainerHandle × W
  unfolding inspect_to_state trim_docker_name
  monitor_handle inspect created w =
      let name = trim_docker_name inspect.name in
      let (cell, w₁) = host.runtime.new_cell (inspect_to_state inspect) w in
      let (task, w₂) = host.runtime.spawn_task (container_monitor name cell) w₁ in
      (
        record {
          id = inspect.id;
          name = name;
          created = created;
          latest_state = cell;
          monitor = some task;
        },
        w₂,
      )

  unfoldable pub stop_monitor : DockerContainerHandle → W → DockerContainerHandle × W
  stop_monitor h w = elim h.monitor [
    | none ↦ (h, w)
    | some task ↦
        (record h { monitor = none }, host.runtime.join_task task (host.runtime.send_cancel task w))
  ]
