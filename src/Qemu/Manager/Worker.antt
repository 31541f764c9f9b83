-- ===== src/Qemu/Manager/Worker.antt =====
-- becky-fx-qemu/src/manager.rs: the worker of a machine, and the commands that it sends itself.
pub mod Updates
pub mod Ended
mod Examples
use becky.Base.{ℕ, zero, suc, ◌*◌, Bool, true, false, Option, none, some, List, [], ◌∷◌, ◌++◌}
use becky.Base.{if◌then◌else◌, Action}
use becky.Text.{Text, chars}
use becky.Id.{UuidCrate, FxId}
use becky.Runtime.{Runtime}
use becky.Qemu.Config.{QemuCrate}
use becky.Qemu.Events.{
  QmpCmd, query_block, system_powerdown, GuestAgentCmd, ping, info, WorkerCommand, qmp, guest_agent,
  Event, Channels, handle_event,
}
use becky.Qemu.Instance.{QemuInstance, QemuHandle, qga_command_timeout_secs}
use becky.Qemu.Instance.Comm.{InstanceHost}
use becky.Qemu.Instance.Calls.{stat_collect, either, fx_stop, call_supported_ga_api}
use becky.Qemu.Instance.Control.{fx_status}
use becky.Qemu.Manager.{QemuRunningInstance}
use becky.Qemu.Manager.Instances.{WorkerProcessContext}

-- What the task of `schedule_event` runs with: a command channel, a pause, and what it sends.
pub record ScheduledCommand : Type 0 where
  pub sender : ℕ
  pub interval : ℕ
  pub cmd : WorkerCommand

-- What an arm of the worker's `select!` receives; `none` when its channel is closed.
pub data Received : Type 0 where
  command : Option WorkerCommand → Received
  event : Option Event → Received

pub record WorkerHost (K Q W : Type 0) : Type 0 where
  pub channels : Channels K W
  pub tasks : Runtime W ScheduledCommand
  pub send_command : ℕ → WorkerCommand → Action W Text (Unit {0})
  pub read_instance : ℕ → W → QemuRunningInstance Q × W
  pub write_instance : ℕ → QemuRunningInstance Q → W → W
  -- `take_qapi_event_rx` of a shared machine: whether it still had its receiver.
  pub take_qapi_event_rx : ℕ → W → Bool × W
  -- The wait for a scheduled task: whether the task ends, as one that waits to send on a full
  -- command channel does not, and the host as the wait leaves it.
  pub join_scheduled : ℕ → W → Bool × W
  -- `JoinHandle::abort`
  pub abort : ℕ → W → W

-- A worker that waits for more, that has ended, or that waits for a scheduled task for ever.
pub data WorkerEnd : Type 0 where
  waiting ended stuck : WorkerEnd

-- What is sent to the worker at each interval.
unfoldable pub scheduled_commands : Bool → List WorkerCommand
scheduled_commands false = qmp QmpCmd.status ∷ qmp query_block ∷ []
scheduled_commands true =
    qmp QmpCmd.status ∷ qmp query_block ∷ guest_agent ping ∷ guest_agent info ∷ []

module _ {K Q W : Type 0} (worker : WorkerHost K Q W) where
  -- One round of the task of `schedule_event`, which ends (`true`) or sends; that the channel is
  -- closed is logged.
  unfoldable pub scheduled_round : ScheduledCommand → W → Bool × W
  scheduled_round task w =
      let (stop, w') = worker.tasks.cancelled w in
      let (r, sent) =
        worker.send_command task.sender task.cmd
          (worker.tasks.interval (task.interval * 1000) w') in
      elim stop [ true ↦ (true, w') | false ↦ (false, sent) ]

  -- Its first rounds.
  unfoldable pub scheduled_rounds : ℕ → ScheduledCommand → W → Bool × W
  unfolding scheduled_round
  scheduled_rounds zero task w = (false, w)
  scheduled_rounds (suc n) task w =
      let (last, w') = scheduled_round task w in
      elim last [ true ↦ (true, w') | false ↦ scheduled_rounds n task w' ]

  abbrev schedule_event : ℕ → ℕ → WorkerCommand → W → ℕ × W
  schedule_event sender interval cmd =
      worker.tasks.spawn_task (record { sender = sender; interval = interval; cmd = cmd })

  unfoldable pub schedule_all : ℕ → ℕ → List WorkerCommand → W → List ℕ × W
  schedule_all sender interval [] w = ([], w)
  schedule_all sender interval (cmd ∷ cmds) w =
      let (task, w') = schedule_event sender interval cmd w in
      let (tasks, w'') = schedule_all sender interval cmds w' in (task ∷ tasks, w'')

  unfoldable pub cancel_all : List ℕ → W → W
  cancel_all [] w = w
  cancel_all (task ∷ tasks) w = cancel_all tasks (worker.tasks.send_cancel task w)

  -- Whether all of them end, one after the other.
  unfoldable pub await_all : List ℕ → W → Bool × W
  await_all [] w = (true, w)
  await_all (task ∷ tasks) w =
      let (done, w') = worker.join_scheduled task w in
      elim done [ true ↦ await_all tasks w' | false ↦ (false, w') ]

  -- All of them are told to end before the first is awaited.
  unfoldable pub stop_scheduled_tasks : List ℕ → W → Bool × W
  unfolding cancel_all await_all
  stop_scheduled_tasks tasks w = await_all tasks (cancel_all tasks w)

  abbrev abort_task : ℕ → W → W
  abort_task task w = worker.tasks.join_task task (worker.abort task w)

  pub abort_if : Option ℕ → W → W
  abort_if none w = w
  abort_if (some task) w = abort_task task w

  -- `QemuHandle::stop_event_reader`
  unfoldable pub stop_event_reader : QemuHandle → W → W
  unfolding abort_if
  stop_event_reader handle w = abort_if handle.ga_task (abort_task handle.event_reader w)

  -- What the worker does before it returns.
  unfoldable pub finish : QemuHandle → List ℕ → W → WorkerEnd × W
  unfolding stop_scheduled_tasks stop_event_reader
  finish handle tasks w =
      let (done, w') = stop_scheduled_tasks tasks w in
      elim done [ true ↦ (ended, stop_event_reader handle w') | false ↦ (stuck, w') ]

module _ {U : UuidCrate} {B : QemuCrate} {Q W : Type 0} where
  module _ (host : InstanceHost (FxId U) W)
      (worker : WorkerHost (FxId U) (QemuInstance U B Q) W) where
    -- A call of the shared machine, whose outcome is only logged.
    unfoldable pub with_instance : {E A : Type 0} → ℕ → (QemuInstance U B Q → Action W E A) → W → W
    with_instance vm call w =
        let (shared, w') = worker.read_instance vm w in (call shared.qemu w').1

    unfoldable pub poll_status : ℕ → QemuHandle → W → W
    unfolding fx_status
    poll_status vm handle w =
        let (shared, w') = worker.read_instance vm w in
        let (r, (qemu, w'')) = fx_status host handle (shared.qemu, w') in
        worker.write_instance vm (record shared { qemu = qemu }) w''

    unfoldable pub run_qmp : ℕ → QemuHandle → QmpCmd → W → W
    unfolding poll_status with_instance fx_stop
    run_qmp vm handle QmpCmd.status w = poll_status vm handle w
    run_qmp vm handle query_block w =
        if either host handle "query-block" "query_block"
        then with_instance vm (λ i. stat_collect host handle) w
        else w
    run_qmp vm handle system_powerdown w = with_instance vm (λ i. fx_stop host handle) w

    unfoldable pub run_guest_agent : ℕ → QemuHandle → GuestAgentCmd → W → W
    unfolding with_instance call_supported_ga_api
    run_guest_agent vm handle ping = with_instance vm (λ i.
        call_supported_ga_api host (chars "guest-ping") host.guest_ping (qga_command_timeout_secs i)
          handle)
    run_guest_agent vm handle info = with_instance vm (λ i.
        call_supported_ga_api host (chars "guest-info") host.guest_info (qga_command_timeout_secs i)
          handle)

    -- One round of the loop, which is the last (`true`) or not.
    unfoldable pub worker_round : WorkerProcessContext (FxId U) QemuHandle → Received → W → Bool × W
    unfolding run_qmp run_guest_agent handle_event
    worker_round ctx (command none) w = (true, w)
    worker_round ctx (command (some WorkerCommand.shutdown)) w = (true, w)
    worker_round ctx (command (some (qmp cmd))) w = (false, run_qmp ctx.qemu ctx.handle cmd w)
    worker_round ctx (command (some (guest_agent cmd))) w =
        (false, run_guest_agent ctx.qemu ctx.handle cmd w)
    worker_round ctx (event none) w = (true, w)
    worker_round ctx (event (some ev)) w =
        (false, handle_event worker.channels ctx.fx_id ctx.handle.process.pid ev w)

    -- The loop over what it receives.
    unfoldable pub worker_loop :
        WorkerProcessContext (FxId U) QemuHandle → List ℕ → List Received → W → WorkerEnd × W
    unfolding worker_round finish
    worker_loop ctx tasks [] w = (waiting, w)
    worker_loop ctx tasks (message ∷ messages) w =
        let (last, w') = worker_round ctx message w in
        elim last [
          | true ↦ finish worker ctx.handle tasks w'
          | false ↦ worker_loop ctx tasks messages w'
        ]

    -- `sender` is the worker's own command channel.
    unfoldable pub worker_process :
        WorkerProcessContext (FxId U) QemuHandle → ℕ → List Received → W → WorkerEnd × W
    unfolding scheduled_commands schedule_all worker_loop stop_event_reader
    worker_process ctx sender messages w =
        let (taken, w₁) = worker.take_qapi_event_rx ctx.qemu w in
        let (tasks, w₂) =
          schedule_all worker sender ctx.status_poll_interval_secs
            (scheduled_commands ctx.guest_agent_enabled) w₁ in
        elim taken [
          | false ↦ (ended, stop_event_reader worker ctx.handle w₁)
          | true ↦ worker_loop ctx tasks messages w₂
        ]
