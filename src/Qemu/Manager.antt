-- ===== src/Qemu/Manager.antt =====
-- becky-fx-qemu/src/manager.rs: the manager, stopping a machine, and its wait.
pub mod Steps
pub mod Stops
pub mod Waits
pub mod Instances
pub mod Discovery
pub mod Lifecycle
pub mod Ends
pub mod Known
pub mod Worker
pub mod Reach
mod Examples
use becky.Base.{ℕ, zero, suc, ◌+◌, ◌/◌, List, Option, none, some, Bool, true, false, Eq, leb}
use becky.Base.{Map, get, remove, Result, ok, err, map_err, Action, pure, fail, ◌>>=◌, ◌>>◌}
use becky.Base.{on_world, catch, if◌then◌else◌}
use becky.Text.{Text}
use becky.State.{FxExecutionState, running, paused, stopped}
use becky.Os.{Os}
use becky.Runtime.{Runtime}
use becky.SystemCommand.Signals.{process_exists}
use becky.Qemu.Events.{WorkerCommand, qmp, system_powerdown, QemuWorkerEvent}

-- in milliseconds
abbrev pub qemu_stop_wait_timeout : ℕ
qemu_stop_wait_timeout = 30000

abbrev pub qemu_stop_poll_interval : ℕ
qemu_stop_poll_interval = 100

abbrev pub exit_rounds : ℕ → ℕ
exit_rounds timeout = timeout / qemu_stop_poll_interval + 1

-- A machine by its pid and its `QemuInstance`.
pub record QemuRunningInstance (Q : Type 0) : Type 0 where
  pub pid : ℕ
  pub qemu : Q

-- A worker's command channel and its task.
pub record WorkerControlHandle : Type 0 where
  pub sender : ℕ
  pub join : ℕ

-- `vms` holds references to instances that the workers share.
pub record QemuManager (K : Type 0) : Type 0 where
  pub vms : Map K ℕ
  pub vmctl : Map K WorkerControlHandle

pub data QemuManagerStopError (K : Type 0) : Type 0 where
  not_found : K → QemuManagerStopError K
  send join metadata : Text → QemuManagerStopError K
  timed_out : K → ℕ → ℕ → QemuManagerStopError K

-- What the manager stands on: the runtime, the shared instances, the workers' channels and tasks,
-- and the metadata manager for one host, whose errors are their debug text.
pub record QemuHost (K Q W : Type 0) : Type 0 where
  pub runtime : Runtime W (Unit {0})
  pub read_instance : ℕ → W → QemuRunningInstance Q × W
  pub send_command : ℕ → WorkerCommand → Action W Text (Unit {0})
  pub join_worker : ℕ → Action W Text (Unit {0})
  pub state_update : K → FxExecutionState → Action W Text (Unit {0})
  -- Upserts the metadata record of an instance with its pid, if it runs.
  pub record_upsert : K → Q → Option ℕ → Action W Text (Unit {0})

module _ {K Q W : Type 0} (host : QemuHost K Q W) where
  -- The loop of `wait_for_process_exit`, by the rounds left; the round after them counts as the
  -- deadline.
  unfoldable pub poll_exit : ℕ → ℕ → ℕ → W → Bool × W
  poll_exit zero pid deadline w =
      let (alive, w₁) = process_exists host.runtime.os pid w in
      let (time, w₂) = host.runtime.now w₁ in elim alive [ true ↦ (false, w₂) | false ↦ (true, w₁) ]
  poll_exit (suc rounds) pid deadline w =
      let (alive, w₁) = process_exists host.runtime.os pid w in
      let (time, w₂) = host.runtime.now w₁ in
      elim alive [
        | true ↦ elim (leb deadline time) [
          | true ↦ (false, w₂)
          | false ↦ poll_exit rounds pid deadline (host.runtime.os.sleep qemu_stop_poll_interval w₂)
        ]
        | false ↦ (true, w₁)
      ]

  -- Whether the process is gone in time.
  unfoldable pub wait_for_process_exit : ℕ → ℕ → W → Bool × W
  unfolding poll_exit
  wait_for_process_exit pid timeout w =
      let (now, w') = host.runtime.now w in poll_exit (exit_rounds timeout) pid (now + timeout) w'

-- A method changes the manager beside the host.
abbrev pub Method : Type 0 → Type 0 → Type 0
Method K W = Action (QemuManager K × W) (QemuManagerStopError K) (Unit {0})

module _ {K Q W : Type 0} ⦃e : Eq K⦄ (host : QemuHost K Q W) where
  -- The worker is told to end, and awaited.
  end_worker : K → Method K W
  end_worker fx_id (m, w) = elim (get m.vmctl fx_id) [
    | none ↦ (ok tt, (m, w))
    | some worker ↦
        let (told, w₁) = host.send_command worker.sender WorkerCommand.shutdown w in
        let (r, w₂) = host.join_worker worker.join w₁ in
        (map_err join r, (record m { vmctl = remove m.vmctl fx_id }, w₂))
  ]

  record_stopped : K → Q → Method K W
  record_stopped fx_id qemu = do
    on_world (catch metadata (host.state_update fx_id stopped))
    on_world (catch metadata (host.record_upsert fx_id qemu none))

  forget : K → Method K W
  forget fx_id (m, w) = (ok tt, (record m { vms = remove m.vms fx_id }, w))

  exited : K → ℕ → Method K W
  unfolding wait_for_process_exit
  exited fx_id pid (m, w) =
      let (gone, w') = wait_for_process_exit host pid qemu_stop_wait_timeout w in
      (if gone then ok tt else err (timed_out fx_id pid (qemu_stop_wait_timeout / 1000)), (m, w'))

  persist : K → ℕ → Method K W
  unfolding record_stopped forget
  persist fx_id vm (m, w) =
      let (instance', w') = host.read_instance vm w in
      (record_stopped fx_id instance'.qemu >> forget fx_id) (m, w')

  after_exit : K → ℕ → Method K W
  unfolding end_worker persist
  after_exit fx_id vm = end_worker fx_id >> persist fx_id vm

  after_powerdown : K → ℕ → ℕ → Method K W
  unfolding exited after_exit
  after_powerdown fx_id vm pid = exited fx_id pid >> after_exit fx_id vm

  pub powerdown_with : K → ℕ → ℕ → WorkerControlHandle → Method K W
  unfolding after_powerdown
  powerdown_with fx_id vm pid worker =
      on_world
        (catch QemuManagerStopError.send (host.send_command worker.sender (qmp system_powerdown)))
      >> after_powerdown fx_id vm pid

  -- `QemuManager::stop`
  unfoldable pub stop : K → Method K W
  unfolding powerdown_with
  stop fx_id (m, w) = elim (get m.vms fx_id) [
    | none ↦ (err (not_found fx_id), (m, w))
    | some vm ↦
        let (instance', w') = host.read_instance vm w in
        elim (get m.vmctl fx_id) [
          | none ↦ (err (not_found fx_id), (m, w'))
          | some worker ↦ powerdown_with fx_id vm instance'.pid worker (m, w')
        ]
  ]
