-- ===== src/Qemu/Manager/Worker/Updates.antt =====
-- What a worker reports to the manager, and what is on record once the manager has drained it.
use becky.Base.{
  ℕ, ◌≡◌, refl, ap, sym, ◌∙◌, true, Option, none, some, List, [], ◌∷◌, ◌++◌, append-nil,
  append_assoc, if◌then◌else◌, Eq, Bool-cases, Result, ok, inl, inr,
}
use becky.Text.{Text, chars}
use becky.Id.{UuidCrate, FxId}
use becky.State.{FxExecutionState}
use becky.Qemu.Config.{QemuCrate}
use becky.Qemu.Events.{
  WorkerEvent, WorkerCommand, qmp, QmpCmd, query_block, system_powerdown, guest_agent,
  GuestAgentCmd, ping, info, QemuWorkerEvent, state_from_worker_event, forwarded,
  forward_worker_event, forward_if, handle_event,
}
use becky.Qemu.Instance.{QemuInstance, QemuHandle, supported_ga_command}
use becky.Qemu.Instance.Comm.{InstanceHost}
use becky.Qemu.Instance.Calls.{call_supported_ga_api, call_ga_api, either, fx_stop}
use becky.Qemu.Instance.Control.{fx_status}
use becky.Qemu.Manager.{QemuRunningInstance, QemuHost, QemuManager}
use becky.Qemu.Manager.Instances.{WorkerProcessContext}
use becky.Qemu.Manager.Ends.{drain_worker_events}
use becky.Qemu.Manager.Ends.Drained.{last_state, RecordsStates, drain_last_state}
use becky.Qemu.Manager.Worker.{
  WorkerHost, ScheduledCommand, Received, command, event, scheduled_commands, schedule_all,
  cancel_all, await_all, stop_scheduled_tasks, stop_event_reader, finish, abort_if, with_instance,
  poll_status, run_qmp, run_guest_agent, worker_round, worker_loop, worker_process,
}
use becky.Qemu.Manager.Worker.Ended.{is_last, worker_process_taken}

-- What one event of a machine is reported as.
abbrev pub update_of : {K : Type 0} → K → ℕ → Option WorkerEvent → List (QemuWorkerEvent K)
update_of k pid none = []
update_of k pid (some e) =
    record { fx_id = k; event = e; state = state_from_worker_event e pid } ∷ []

abbrev pub updates_of : {K : Type 0} → K → ℕ → Received → List (QemuWorkerEvent K)
updates_of k pid (command cmd) = []
updates_of k pid (event none) = []
updates_of k pid (event (some ev)) = update_of k pid (forwarded ev)

-- What a worker reports of what it receives until it ends.
abbrev pub reported : {K : Type 0} → K → ℕ → List Received → List (QemuWorkerEvent K)
reported k pid [] = []
reported k pid (message ∷ messages) =
    if is_last message then [] else updates_of k pid message ++ reported k pid messages

-- The updates that were sent so far, which only a send of one changes.
pub record SendsUpdates {K Q W : Type 0} (host : InstanceHost K W) (worker : WorkerHost K Q W)
    (updates : W → List (QemuWorkerEvent K)) : Type 0 where
  pub on_send :
      (e : QemuWorkerEvent K) (w : W)
      → updates (worker.channels.send_update e w) ≡ updates w ++ e ∷ []
  pub on_event : (e : WorkerEvent) (w : W) → updates (worker.channels.send_event e w) ≡ updates w
  pub on_read : (vm : ℕ) (w : W) → updates (worker.read_instance vm w).1 ≡ updates w
  pub on_write :
      (vm : ℕ) (shared : QemuRunningInstance Q) (w : W)
      → updates (worker.write_instance vm shared w) ≡ updates w
  pub on_take : (vm : ℕ) (w : W) → updates (worker.take_qapi_event_rx vm w).1 ≡ updates w
  pub on_abort : (task : ℕ) (w : W) → updates (worker.abort task w) ≡ updates w
  pub on_join : (task : ℕ) (w : W) → updates (worker.tasks.join_task task w) ≡ updates w
  pub on_join_scheduled : (task : ℕ) (w : W) → updates (worker.join_scheduled task w).1 ≡ updates w
  pub on_cancel : (task : ℕ) (w : W) → updates (worker.tasks.send_cancel task w) ≡ updates w
  pub on_spawn :
      (task : ScheduledCommand) (w : W) → updates (worker.tasks.spawn_task task w).1 ≡ updates w
  pub on_status : (ctl : ℕ) (w : W) → updates (host.query_status ctl w).1 ≡ updates w
  pub on_block : (ctl : ℕ) (w : W) → updates (host.query_block ctl w).1 ≡ updates w
  pub on_powerdown : (ctl : ℕ) (w : W) → updates (host.system_powerdown ctl w).1 ≡ updates w
  pub on_ping : (secs qga : ℕ) (w : W) → updates (host.guest_ping secs qga w).1 ≡ updates w
  pub on_info : (secs qga : ℕ) (w : W) → updates (host.guest_info secs qga w).1 ≡ updates w

module _ {U : UuidCrate} {B : QemuCrate} {Q W : Type 0} (host : InstanceHost (FxId U) W)
    (worker : WorkerHost (FxId U) (QemuInstance U B Q) W)
    (updates : W → List (QemuWorkerEvent (FxId U))) (laws : SendsUpdates host worker updates) where
  schedule_all_sends_none :
      (sender secs : ℕ) (cmds : List WorkerCommand) (w : W)
      → updates (schedule_all worker sender secs cmds w).1 ≡ updates w
  unfolding schedule_all
  schedule_all_sends_none sender secs [] w = refl
  schedule_all_sends_none sender secs (cmd ∷ cmds) w =
      schedule_all_sends_none sender secs cmds _ ∙ laws.on_spawn _ w

  cancel_all_sends_none : (tasks : List ℕ) (w : W) → updates (cancel_all worker tasks w) ≡ updates w
  unfolding cancel_all
  cancel_all_sends_none [] w = refl
  cancel_all_sends_none (task ∷ tasks) w = cancel_all_sends_none tasks _ ∙ laws.on_cancel task w

  await_all_sends_none : (tasks : List ℕ) (w : W) → updates (await_all worker tasks w).1 ≡ updates w
  unfolding await_all
  await_all_sends_none [] w = refl
  await_all_sends_none (task ∷ tasks) w = elim (Bool-cases (worker.join_scheduled task w).0) [
    | inl done ↦ rw (done, await_all) (await_all_sends_none tasks _ ∙ laws.on_join_scheduled task w)
    | inr blocked ↦ rw (blocked, await_all) (laws.on_join_scheduled task w)
  ]

  abort_if_sends_none : (task : Option ℕ) (w : W) → updates (abort_if worker task w) ≡ updates w
  unfolding abort_if
  abort_if_sends_none none w = refl
  abort_if_sends_none (some task) w = laws.on_join task _ ∙ laws.on_abort task w

  stop_event_reader_sends_none :
      (handle : QemuHandle) (w : W) → updates (stop_event_reader worker handle w) ≡ updates w
  unfolding stop_event_reader
  stop_event_reader_sends_none handle w =
      abort_if_sends_none handle.ga_task _
      ∙ laws.on_join handle.event_reader _
      ∙ laws.on_abort handle.event_reader w

  stop_scheduled_tasks_sends_none :
      (tasks : List ℕ) (w : W) → updates (stop_scheduled_tasks worker tasks w).1 ≡ updates w
  unfolding stop_scheduled_tasks
  stop_scheduled_tasks_sends_none tasks w =
      await_all_sends_none tasks _ ∙ cancel_all_sends_none tasks w

  finish_sends_none :
      (handle : QemuHandle) (tasks : List ℕ) (w : W)
      → updates (finish worker handle tasks w).1 ≡ updates w
  unfolding finish
  finish_sends_none handle tasks w =
      let stopped = stop_scheduled_tasks_sends_none tasks w in
      elim (Bool-cases (stop_scheduled_tasks worker tasks w).0) [
        | inl done ↦ rw (done, finish) (stop_event_reader_sends_none handle _ ∙ stopped)
        | inr blocked ↦ rw (blocked, finish) stopped
      ]

  forward_if_sends :
      (k : FxId U) (pid : ℕ) (e : Option WorkerEvent) (w : W)
      → updates (forward_if worker.channels k pid e w) ≡ updates w ++ update_of k pid e
  unfolding forward_if forward_worker_event
  forward_if_sends k pid none w = sym (append-nil (updates w))
  forward_if_sends k pid (some e) w =
      laws.on_send _ _ ∙ ap (λ sent. sent ++ update_of k pid (some e)) (laws.on_event e w)

  call_ga_api_sends_none :
      {A : Type 0} (call : ℕ → ℕ → W → Option (Result Text A) × W) (timeout : ℕ) (ga : Option ℕ)
      (w : W)
      → ((secs qga : ℕ) (v : W) → updates (call secs qga v).1 ≡ updates v)
      → updates (call_ga_api host call timeout ga w).1 ≡ updates w
  unfolding call_ga_api
  call_ga_api_sends_none call timeout none w kept = refl
  call_ga_api_sends_none call timeout (some qga) w kept = kept timeout qga w

  agent_call_sends_none :
      {A : Type 0} (name : Text) (call : ℕ → ℕ → W → Option (Result Text A) × W) (timeout : ℕ)
      (handle : QemuHandle) (w : W)
      → ((secs qga : ℕ) (v : W) → updates (call secs qga v).1 ≡ updates v)
      → updates (call_supported_ga_api host name call timeout handle w).1 ≡ updates w
  unfolding call_supported_ga_api
  agent_call_sends_none name call timeout handle w kept =
      elim (Bool-cases (supported_ga_command handle name)) [
        | inl yes' ↦
            rw (yes', call_supported_ga_api) (call_ga_api_sends_none call timeout handle.ga w kept)
        | inr no' ↦ rw (no', call_supported_ga_api) refl
      ]

  fx_stop_sends_none : (handle : QemuHandle) (w : W) → updates (fx_stop host handle w).1 ≡ updates w
  unfolding fx_stop
  fx_stop_sends_none handle w =
      elim (Bool-cases (either host handle "system_powerdown" "system-powerdown")) [
        | inl yes' ↦ rw (yes', fx_stop) (laws.on_powerdown handle.ctl w)
        | inr no' ↦ rw (no', fx_stop) refl
      ]

  run_qmp_sends_none :
      (vm : ℕ) (handle : QemuHandle) (cmd : QmpCmd) (w : W)
      → updates (run_qmp host worker vm handle cmd w) ≡ updates w
  unfolding run_qmp poll_status with_instance fx_status
  run_qmp_sends_none vm handle QmpCmd.status w =
      laws.on_write vm _ _ ∙ laws.on_status handle.ctl _ ∙ laws.on_read vm w
  run_qmp_sends_none vm handle query_block w =
      elim (Bool-cases (either host handle "query-block" "query_block")) [
        | inl yes' ↦ rw (yes', run_qmp) (laws.on_block handle.ctl _ ∙ laws.on_read vm w)
        | inr no' ↦ rw (no', run_qmp) refl
      ]
  run_qmp_sends_none vm handle system_powerdown w = fx_stop_sends_none handle _ ∙ laws.on_read vm w

  run_guest_agent_sends_none :
      (vm : ℕ) (handle : QemuHandle) (cmd : GuestAgentCmd) (w : W)
      → updates (run_guest_agent host worker vm handle cmd w) ≡ updates w
  unfolding run_guest_agent with_instance
  run_guest_agent_sends_none vm handle ping w =
      agent_call_sends_none (chars "guest-ping") host.guest_ping _ handle _ laws.on_ping
      ∙ laws.on_read vm w
  run_guest_agent_sends_none vm handle info w =
      agent_call_sends_none (chars "guest-info") host.guest_info _ handle _ laws.on_info
      ∙ laws.on_read vm w

  worker_loop_sends :
      (ctx : WorkerProcessContext (FxId U) QemuHandle) (tasks : List ℕ) (messages : List Received)
      (w : W)
      → updates (worker_loop host worker ctx tasks messages w).1
        ≡ updates w ++ reported ctx.fx_id ctx.handle.process.pid messages
  unfolding worker_loop worker_round handle_event
  worker_loop_sends ctx tasks [] w = sym (append-nil (updates w))
  worker_loop_sends ctx tasks (command none ∷ messages) w =
      finish_sends_none ctx.handle tasks w ∙ sym (append-nil (updates w))
  worker_loop_sends ctx tasks (command (some WorkerCommand.shutdown) ∷ messages) w =
      finish_sends_none ctx.handle tasks w ∙ sym (append-nil (updates w))
  worker_loop_sends ctx tasks (command (some (qmp cmd)) ∷ messages) w =
      worker_loop_sends ctx tasks messages _
      ∙ ap (λ sent. sent ++ reported ctx.fx_id ctx.handle.process.pid messages)
          (run_qmp_sends_none ctx.qemu ctx.handle cmd w)
  worker_loop_sends ctx tasks (command (some (guest_agent cmd)) ∷ messages) w =
      worker_loop_sends ctx tasks messages _
      ∙ ap (λ sent. sent ++ reported ctx.fx_id ctx.handle.process.pid messages)
          (run_guest_agent_sends_none ctx.qemu ctx.handle cmd w)
  worker_loop_sends ctx tasks (event none ∷ messages) w =
      finish_sends_none ctx.handle tasks w ∙ sym (append-nil (updates w))
  worker_loop_sends ctx tasks (event (some ev) ∷ messages) w =
      worker_loop_sends ctx tasks messages _
      ∙ ap (λ sent. sent ++ reported ctx.fx_id ctx.handle.process.pid messages)
          (forward_if_sends ctx.fx_id ctx.handle.process.pid (forwarded ev) w)
      ∙ append_assoc (updates w) (update_of ctx.fx_id ctx.handle.process.pid (forwarded ev))
          (reported ctx.fx_id ctx.handle.process.pid messages)

  -- If only a send changes which updates were sent, a worker that takes its receiver sends, beyond
  -- those before it, one update for each event of the machine that is forwarded and received before
  -- the worker ends, in their order.
  pub worker_process_sends :
      (ctx : WorkerProcessContext (FxId U) QemuHandle) (sender : ℕ) (messages : List Received)
      (w : W)
      → (worker.take_qapi_event_rx ctx.qemu w).0 ≡ true
      → updates (worker_process host worker ctx sender messages w).1
        ≡ updates w ++ reported ctx.fx_id ctx.handle.process.pid messages
  worker_process_sends ctx sender messages w taken =
      let (tasks, w') =
        schedule_all worker sender ctx.status_poll_interval_secs
          (scheduled_commands ctx.guest_agent_enabled) (worker.take_qapi_event_rx ctx.qemu w).1 in
      ap (λ r. updates r.1) (worker_process_taken host worker ctx sender messages w taken)
      ∙ worker_loop_sends ctx tasks messages w'
      ∙ ap (λ sent. sent ++ reported ctx.fx_id ctx.handle.process.pid messages)
          (schedule_all_sends_none sender ctx.status_poll_interval_secs
              (scheduled_commands ctx.guest_agent_enabled) (worker.take_qapi_event_rx ctx.qemu w).1
            ∙ laws.on_take ctx.qemu w)

  -- If only a send changes which updates were sent, and the metadata manager records what it is
  -- told, then once a manager has drained all that a worker sent, the record of every machine is the
  -- state of the last event about it that the worker received, if there was one.
  pub worker_process_recorded :
      ⦃e : Eq (FxId U)⦄ {Q' V : Type 0} (manager : QemuHost (FxId U) Q' V)
      (recorded : FxId U → V → Option FxExecutionState)
      → RecordsStates manager recorded
      → (ctx : WorkerProcessContext (FxId U) QemuHandle) (sender : ℕ) (messages : List Received)
        (w : W) (m : QemuManager (FxId U)) (v : V) (k : FxId U) (updated : ℕ)
      → updates w ≡ []
      → (worker.take_qapi_event_rx ctx.qemu w).0 ≡ true
      → (drain_worker_events manager
          (updates (worker_process host worker ctx sender messages w).1)
          (m, v)).0
        ≡ ok updated
      → recorded k
          (drain_worker_events manager
            (updates (worker_process host worker ctx sender messages w).1)
            (m, v)).1.1
        ≡ last_state (reported ctx.fx_id ctx.handle.process.pid messages) k (recorded k v)
  worker_process_recorded manager recorded records ctx sender messages w m v k updated empty taken
        h =
      let sent = updates (worker_process host worker ctx sender messages w).1 in
      (drain_last_state manager recorded records sent m v k updated h).1
      ∙ ap (λ events. last_state events k (recorded k v))
          (worker_process_sends ctx sender messages w taken
            ∙ ap (λ before. before ++ reported ctx.fx_id ctx.handle.process.pid messages) empty)
