-- ===== src/Qemu/Manager/Ends.antt =====
-- becky-fx-qemu/src/manager.rs: the end of a manager, and what its workers report to it.
pub mod Keeps
pub mod Left
pub mod Drained
use becky.Base.{ℕ, ◌+◌, List, [], ◌∷◌, Option, none, some, Bool, true, false, Eq}
use becky.Base.{Map, get, remove, Result, ok, err, Action, pure, ◌>>=◌, ◌>>◌, on_world, catch}
use becky.Base.{if◌then◌else◌}
use becky.State.{FxExecutionState, running, paused, stopped}
use becky.SystemCommand.Signals.{process_exists}
use becky.Qemu.Errors.{CreateError}
use becky.Qemu.Events.{WorkerCommand, QemuWorkerEvent}
use becky.Qemu.Manager.{QemuHost, QemuManager, WorkerControlHandle}
use becky.Qemu.Manager.Discovery.{Create}

module _ {K Q W : Type 0} ⦃e : Eq K⦄ (host : QemuHost K Q W) where
  -- Every worker is told to end; that it is gone is ignored.
  tell_all : Map K WorkerControlHandle → W → W
  tell_all [] w = w
  tell_all ((uuid, worker) ∷ workers) w =
      tell_all workers (host.send_command worker.sender WorkerCommand.shutdown w).1

  abbrev state_of : Option ℕ → FxExecutionState
  state_of none = stopped
  state_of (some pid) = running pid

  -- What is known of a machine is recorded; errors are logged.
  record_left : K → ℕ → W → W
  record_left uuid vm w =
      let (shared, w₁) = host.read_instance vm w in
      let (alive, w₂) = process_exists host.runtime.os shared.pid w₁ in
      let pid = if alive then some shared.pid else none in
      (host.record_upsert uuid shared.qemu pid (host.state_update uuid (state_of pid) w₂).1).1

  unfoldable pub leave : K → QemuManager K × W → QemuManager K × W
  unfolding record_left
  leave uuid (m, w) = elim (get m.vms uuid) [
    | none ↦ (m, w)
    | some vm ↦ (record m { vms = remove m.vms uuid }, record_left uuid vm w)
  ]

  -- A machine whose worker was lost is kept.
  unfoldable pub join_one : K → WorkerControlHandle → QemuManager K × W → QemuManager K × W
  unfolding leave
  join_one uuid worker (m, w) =
      let (r, w') = host.join_worker worker.join w in
      elim r [ ok _ ↦ leave uuid (m, w') | err x ↦ (m, w') ]

  unfoldable pub join_all : Map K WorkerControlHandle → QemuManager K × W → QemuManager K × W
  unfolding join_one
  join_all [] s = s
  join_all ((uuid, worker) ∷ workers) s = join_all workers (join_one uuid worker s)

  unfoldable pub shutdown : QemuManager K × W → QemuManager K × W
  unfolding tell_all join_all
  shutdown (m, w) = join_all m.vmctl (record m { vmctl = [] }, tell_all m.vmctl w)

  abbrev runtime_pid : FxExecutionState → Option ℕ
  runtime_pid (running pid) = some pid
  runtime_pid (paused pid) = some pid
  runtime_pid _ = none

  upsert_known : K → FxExecutionState → Option ℕ → Action W CreateError (Unit {0})
  upsert_known fx_id state none w = pure tt w
  upsert_known fx_id state (some vm) w =
      let (shared, w') = host.read_instance vm w in
      catch CreateError.metadata (host.record_upsert fx_id shared.qemu (runtime_pid state)) w'

  unfoldable pub persist_event : Map K ℕ → QemuWorkerEvent K → Action W CreateError (Unit {0})
  unfolding upsert_known
  persist_event vms event = do
    catch CreateError.metadata (host.state_update event.fx_id event.state)
    upsert_known event.fx_id event.state (get vms event.fx_id)

  unfoldable pub drain : Map K ℕ → ℕ → List (QemuWorkerEvent K) → Action W CreateError ℕ
  unfolding persist_event
  drain vms updated [] = pure updated
  drain vms updated (event ∷ events) = do persist_event vms event; drain vms (updated + 1) events

  -- `drain_worker_events`, by the events that `try_recv` hands out before it finds none.
  unfoldable pub drain_worker_events : List (QemuWorkerEvent K) → Create K W ℕ
  unfolding drain
  drain_worker_events events (m, w) = on_world (drain m.vms 0 events) (m, w)
