-- ===== src/Qemu/Manager/Worker/Ended.antt =====
-- When a worker ends, and which tasks it leaves.
use becky.Base.{ℕ, ◌≡◌, refl, sym, subst, ◌∙◌, Bool, true, false, Option, none, some, List, [], ◌∷◌}
use becky.Base.{inl, inr, any, ap, if◌then◌else◌, arith, All, All-weaken, Bool-cases}
use becky.Id.{UuidCrate, FxId}
use becky.Qemu.Config.{QemuCrate}
use becky.Qemu.Events.{WorkerCommand, qmp, guest_agent}
use becky.Qemu.Instance.{QemuInstance, QemuHandle}
use becky.Qemu.Instance.Comm.{InstanceHost}
use becky.Qemu.Manager.Instances.{WorkerProcessContext}
use becky.Qemu.Manager.Worker.{
  WorkerHost, waiting, ended, stuck, finish, Received, command, event, scheduled_commands,
  schedule_all, cancel_all, await_all, stop_scheduled_tasks, stop_event_reader, abort_if,
  worker_round, worker_loop, worker_process,
}

-- A closed channel or a shutdown.
abbrev pub is_last : Received → Bool
is_last (command none) = true
is_last (command (some WorkerCommand.shutdown)) = true
is_last (command (some (qmp cmd))) = false
is_last (command (some (guest_agent cmd))) = false
is_last (event none) = true
is_last (event (some ev)) = false

-- Which tasks run: a task whose wait has come to its end does not, and one that has ended does not
-- start again.
pub record EndsTasks {K Q W : Type 0} (worker : WorkerHost K Q W) (alive : ℕ → W → Bool)
    : Type 0 where
  pub joined : (task : ℕ) (w : W) → alive task (worker.tasks.join_task task w) ≡ false
  pub join_kept :
      (task other : ℕ) (w : W)
      → alive other w ≡ false
      → alive other (worker.tasks.join_task task w) ≡ false
  pub scheduled_joined :
      (task : ℕ) (w : W)
      → (worker.join_scheduled task w).0 ≡ true
      → alive task (worker.join_scheduled task w).1 ≡ false
  pub scheduled_kept :
      (task other : ℕ) (w : W)
      → alive other w ≡ false
      → alive other (worker.join_scheduled task w).1 ≡ false
  pub abort_kept :
      (task other : ℕ) (w : W) → alive other w ≡ false → alive other (worker.abort task w) ≡ false

-- Which tasks were told to end: a task that was ends when it is awaited, as one does that is not
-- blocked on a full command channel.
pub record EndsWhenTold {K Q W : Type 0} (worker : WorkerHost K Q W) (told : ℕ → W → Bool)
    : Type 0 where
  pub cancelled : (task : ℕ) (w : W) → told task (worker.tasks.send_cancel task w) ≡ true
  pub cancel_kept :
      (task other : ℕ) (w : W)
      → told other w ≡ true
      → told other (worker.tasks.send_cancel task w) ≡ true
  pub join_kept :
      (task other : ℕ) (w : W)
      → told other w ≡ true
      → told other (worker.join_scheduled task w).1 ≡ true
  pub ends : (task : ℕ) (w : W) → told task w ≡ true → (worker.join_scheduled task w).0 ≡ true

module _ {U : UuidCrate} {B : QemuCrate} {Q W : Type 0} (host : InstanceHost (FxId U) W)
    (worker : WorkerHost (FxId U) (QemuInstance U B Q) W) where
  pub worker_process_taken :
      (ctx : WorkerProcessContext (FxId U) QemuHandle) (sender : ℕ) (messages : List Received)
      (w : W)
      → (worker.take_qapi_event_rx ctx.qemu w).0 ≡ true
      → worker_process host worker ctx sender messages w ≡ (
          let (tasks, w') =
            schedule_all worker sender ctx.status_poll_interval_secs
              (scheduled_commands ctx.guest_agent_enabled)
              (worker.take_qapi_event_rx ctx.qemu w).1 in
          worker_loop host worker ctx tasks messages w')
  unfolding worker_process
  worker_process_taken ctx sender messages w taken = rw (taken, worker_process) refl

  await_all_done :
      (task : ℕ) (tasks : List ℕ) (w : W)
      → (worker.join_scheduled task w).0 ≡ true
      → await_all worker (task ∷ tasks) w ≡ await_all worker tasks (worker.join_scheduled task w).1
  unfolding await_all
  await_all_done task tasks w done = rw (done, await_all) refl

  await_all_blocked :
      (task : ℕ) (tasks : List ℕ) (w : W)
      → (worker.join_scheduled task w).0 ≡ false
      → (await_all worker (task ∷ tasks) w).0 ≡ false
  unfolding await_all
  await_all_blocked task tasks w blocked = rw (blocked, await_all) refl

  finish_done :
      (handle : QemuHandle) (tasks : List ℕ) (w : W)
      → (stop_scheduled_tasks worker tasks w).0 ≡ true
      → finish worker handle tasks w
        ≡ (ended, stop_event_reader worker handle (stop_scheduled_tasks worker tasks w).1)
  unfolding finish
  finish_done handle tasks w done = rw (done, finish) refl

  finish_stuck :
      (handle : QemuHandle) (tasks : List ℕ) (w : W)
      → (stop_scheduled_tasks worker tasks w).0 ≡ false
      → (finish worker handle tasks w).0 ≡ stuck
  unfolding finish
  finish_stuck handle tasks w blocked = rw (blocked, finish) refl

  module _ (told : ℕ → W → Bool) (laws : EndsWhenTold worker told) where
    cancel_all_keeps_told :
        (tasks : List ℕ) (other : ℕ) (w : W)
        → told other w ≡ true
        → told other (cancel_all worker tasks w) ≡ true
    unfolding cancel_all
    cancel_all_keeps_told [] other w h = h
    cancel_all_keeps_told (task ∷ tasks) other w h =
        cancel_all_keeps_told tasks other _ (laws.cancel_kept task other w h)

    cancel_all_tells :
        (tasks : List ℕ) (w : W) → All (λ t. told t (cancel_all worker tasks w) ≡ true) tasks
    unfolding cancel_all
    cancel_all_tells [] w = tt
    cancel_all_tells (task ∷ tasks) w =
        (cancel_all_keeps_told tasks task _ (laws.cancelled task w), cancel_all_tells tasks _)

    await_all_ends :
        (tasks : List ℕ) (w : W)
        → All (λ t. told t w ≡ true) tasks
        → (await_all worker tasks w).0 ≡ true
    unfolding await_all
    await_all_ends [] w h = refl
    await_all_ends (task ∷ tasks) w (is_told, all_told) =
        ap (λ r. r.0) (await_all_done task tasks w (laws.ends task w is_told))
        ∙ await_all_ends tasks _
            (All-weaken (λ t. told t w ≡ true) (λ t h. laws.join_kept task t w h) tasks all_told)

    finish_ends :
        (handle : QemuHandle) (tasks : List ℕ) (w : W) → (finish worker handle tasks w).0 ≡ ended
    unfolding stop_scheduled_tasks
    finish_ends handle tasks w =
        ap (λ r. r.0)
          (finish_done handle tasks w
            (await_all_ends tasks (cancel_all worker tasks w) (cancel_all_tells tasks w)))

    worker_loop_ends :
        (ctx : WorkerProcessContext (FxId U) QemuHandle) (tasks : List ℕ) (messages : List Received)
        (w : W)
        → (worker_loop host worker ctx tasks messages w).0
          ≡ (if any is_last messages then ended else waiting)
    unfolding worker_loop worker_round
    worker_loop_ends ctx tasks [] w = refl
    worker_loop_ends ctx tasks (command none ∷ messages) w = finish_ends ctx.handle tasks w
    worker_loop_ends ctx tasks (command (some WorkerCommand.shutdown) ∷ messages) w =
        finish_ends ctx.handle tasks w
    worker_loop_ends ctx tasks (command (some (qmp cmd)) ∷ messages) w =
        worker_loop_ends ctx tasks messages _
    worker_loop_ends ctx tasks (command (some (guest_agent cmd)) ∷ messages) w =
        worker_loop_ends ctx tasks messages _
    worker_loop_ends ctx tasks (event none ∷ messages) w = finish_ends ctx.handle tasks w
    worker_loop_ends ctx tasks (event (some ev) ∷ messages) w =
        worker_loop_ends ctx tasks messages _

    -- If every scheduled task that was told to end does end when it is awaited, then a worker that
    -- took its receiver is not stuck: it ends if it receives a shutdown or finds a channel closed,
    -- and waits for more if not.
    pub worker_process_ends :
        (ctx : WorkerProcessContext (FxId U) QemuHandle) (sender : ℕ) (messages : List Received)
        (w : W)
        → (worker.take_qapi_event_rx ctx.qemu w).0 ≡ true
        → (worker_process host worker ctx sender messages w).0
          ≡ (if any is_last messages then ended else waiting)
    worker_process_ends ctx sender messages w taken =
        let (tasks, w') =
          schedule_all worker sender ctx.status_poll_interval_secs
            (scheduled_commands ctx.guest_agent_enabled) (worker.take_qapi_event_rx ctx.qemu w).1 in
        ap (λ r. r.0) (worker_process_taken ctx sender messages w taken)
        ∙ worker_loop_ends ctx tasks messages w'

  module _ (alive : ℕ → W → Bool) (laws : EndsTasks worker alive) where
    -- A task that does not run any more.
    abbrev IsOver : ℕ → W → Type 0
    IsOver task w = alive task w ≡ false

    await_all_keeps_IsOver :
        (tasks : List ℕ) (other : ℕ) (w : W)
        → IsOver other w
        → IsOver other (await_all worker tasks w).1
    unfolding await_all
    await_all_keeps_IsOver [] other w over = over
    await_all_keeps_IsOver (task ∷ tasks) other w over =
        let kept = laws.scheduled_kept task other w over in
        elim (Bool-cases (worker.join_scheduled task w).0) [
          | inl done ↦ rw (done, await_all) (await_all_keeps_IsOver tasks other _ kept)
          | inr blocked ↦ rw (blocked, await_all) kept
        ]

    await_all-IsOver :
        (tasks : List ℕ) (w : W)
        → (await_all worker tasks w).0 ≡ true
        → All (λ t. IsOver t (await_all worker tasks w).1) tasks
    await_all-IsOver [] w = λ h. tt
    await_all-IsOver (task ∷ tasks) w = elim (Bool-cases (worker.join_scheduled task w).0) [
      | inr blocked ↦ λ h. absurd (ground (arith, await_all_blocked task tasks w blocked))
      | inl done ↦
          subst (λ r. r.0 ≡ true → All (λ t. IsOver t r.1) (task ∷ tasks))
            (sym (await_all_done task tasks w done))
            (λ h. (
              await_all_keeps_IsOver tasks task _ (laws.scheduled_joined task w done),
              await_all-IsOver tasks _ h,
            ))
    ]

    stopped-IsOver :
        (tasks : List ℕ) (w : W)
        → (stop_scheduled_tasks worker tasks w).0 ≡ true
        → All (λ t. IsOver t (stop_scheduled_tasks worker tasks w).1) tasks
    unfolding stop_scheduled_tasks
    stopped-IsOver tasks w = await_all-IsOver tasks (cancel_all worker tasks w)

    abort_keeps_IsOver :
        (task other : ℕ) (w : W)
        → IsOver other w
        → IsOver other (worker.tasks.join_task task (worker.abort task w))
    abort_keeps_IsOver task other w over =
        laws.join_kept task other _ (laws.abort_kept task other w over)

    abort_if_keeps_IsOver :
        (task : Option ℕ) (other : ℕ) (w : W)
        → IsOver other w
        → IsOver other (abort_if worker task w)
    unfolding abort_if
    abort_if_keeps_IsOver none other w over = over
    abort_if_keeps_IsOver (some task) other w over = abort_keeps_IsOver task other w over

    stop_event_reader_keeps_IsOver :
        (handle : QemuHandle) (other : ℕ) (w : W)
        → IsOver other w
        → IsOver other (stop_event_reader worker handle w)
    unfolding stop_event_reader
    stop_event_reader_keeps_IsOver handle other w over =
        abort_if_keeps_IsOver handle.ga_task other _
          (abort_keeps_IsOver handle.event_reader other w over)

    stop_event_reader-IsOver :
        (handle : QemuHandle) (w : W)
        → IsOver handle.event_reader (stop_event_reader worker handle w)
    unfolding stop_event_reader
    stop_event_reader-IsOver handle w =
        abort_if_keeps_IsOver handle.ga_task handle.event_reader _
          (laws.joined handle.event_reader (worker.abort handle.event_reader w))

    finish-IsOver :
        (handle : QemuHandle) (tasks : List ℕ) (w : W)
        → (finish worker handle tasks w).0 ≡ ended
        → All (λ t. IsOver t (finish worker handle tasks w).1) (handle.event_reader ∷ tasks)
    finish-IsOver handle tasks w = elim (Bool-cases (stop_scheduled_tasks worker tasks w).0) [
      | inr blocked ↦ λ h. absurd (ground (arith, finish_stuck handle tasks w blocked))
      | inl done ↦
          subst (λ r. r.0 ≡ ended → All (λ t. IsOver t r.1) (handle.event_reader ∷ tasks))
            (sym (finish_done handle tasks w done))
            (λ h. (
              stop_event_reader-IsOver handle _,
              All-weaken (λ t. IsOver t (stop_scheduled_tasks worker tasks w).1)
                  (λ t over. stop_event_reader_keeps_IsOver handle t _ over) tasks
                  (stopped-IsOver tasks w done),
            ))
    ]

    worker_loop-IsOver :
        (ctx : WorkerProcessContext (FxId U) QemuHandle) (tasks : List ℕ) (messages : List Received)
        (w : W)
        → (worker_loop host worker ctx tasks messages w).0 ≡ ended
        → All
            (λ t. IsOver t (worker_loop host worker ctx tasks messages w).1)
            (ctx.handle.event_reader ∷ tasks)
    unfolding worker_loop worker_round
    worker_loop-IsOver ctx tasks [] w h = absurd (ground arith)
    worker_loop-IsOver ctx tasks (command none ∷ messages) w h = finish-IsOver ctx.handle tasks w h
    worker_loop-IsOver ctx tasks (command (some WorkerCommand.shutdown) ∷ messages) w h =
        finish-IsOver ctx.handle tasks w h
    worker_loop-IsOver ctx tasks (command (some (qmp cmd)) ∷ messages) w h =
        worker_loop-IsOver ctx tasks messages _ h
    worker_loop-IsOver ctx tasks (command (some (guest_agent cmd)) ∷ messages) w h =
        worker_loop-IsOver ctx tasks messages _ h
    worker_loop-IsOver ctx tasks (event none ∷ messages) w h = finish-IsOver ctx.handle tasks w h
    worker_loop-IsOver ctx tasks (event (some ev) ∷ messages) w h =
        worker_loop-IsOver ctx tasks messages _ h

    -- If a task whose wait came to its end has ended and does not start again, a worker that took its
    -- receiver and ends leaves neither the reader of events nor a scheduled task behind.
    pub worker_process_leaves_none :
        (ctx : WorkerProcessContext (FxId U) QemuHandle) (sender : ℕ) (messages : List Received)
        (w : W)
        → (worker.take_qapi_event_rx ctx.qemu w).0 ≡ true
        → (worker_process host worker ctx sender messages w).0 ≡ ended
        → All
            (λ t. alive t (worker_process host worker ctx sender messages w).1 ≡ false)
            (ctx.handle.event_reader
              ∷ (schedule_all worker sender ctx.status_poll_interval_secs
                  (scheduled_commands ctx.guest_agent_enabled)
                  (worker.take_qapi_event_rx ctx.qemu w).1).0)
    worker_process_leaves_none ctx sender messages w taken =
        let (tasks, w') =
          schedule_all worker sender ctx.status_poll_interval_secs
            (scheduled_commands ctx.guest_agent_enabled) (worker.take_qapi_event_rx ctx.qemu w).1 in
        subst (λ r. r.0 ≡ ended → All (λ t. IsOver t r.1) (ctx.handle.event_reader ∷ tasks))
          (sym (worker_process_taken ctx sender messages w taken))
          (worker_loop-IsOver ctx tasks messages w')
