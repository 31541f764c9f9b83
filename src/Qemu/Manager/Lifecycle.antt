-- ===== src/Qemu/Manager/Lifecycle.antt =====
-- becky-fx-qemu/src/manager.rs: allocating and creating machines, and watching those that are known.
pub mod Keeps
pub mod Watchers
pub mod Created
use becky.Base.{ℕ, List, [], ◌∷◌, ◌++◌, Option, none, some, Eq}
use becky.Base.{Map, get, insert, Result, ok, err, Action, pure, fail, ◌>>=◌, ◌>>◌, on_world, catch}
use becky.Qemu.Errors.{CreateError, SpawnError}
use becky.Qemu.Manager.{QemuHost, QemuManager, QemuRunningInstance, WorkerControlHandle}
use becky.Qemu.Manager.Instances.{Instances, WorkerProcessContext}
use becky.Qemu.Manager.Discovery.{Create}

module _ {K C R H Q W : Type 0} ⦃e : Eq K⦄ where
  module _ (host : QemuHost K Q W) (instances : Instances K C R H Q W) where
    -- A method of a shared machine, under its write lock.
    abbrev on_instance : {E A : Type 0} → ℕ → Action (Q × W) E A → Action W E A
    on_instance vm act w =
        let (shared, w₁) = host.read_instance vm w in
        let (r, (qemu, w₂)) = act (shared.qemu, w₁) in
        (r, instances.write_instance vm (record shared { qemu = qemu }) w₂)

    or_start : C → K → ℕ → Option H → Action W SpawnError H
    or_start rc uuid vm (some handle) = pure handle
    or_start rc uuid vm none = on_instance vm (instances.fx_start uuid rc)

    unfoldable pub attach_or_start : C → K → ℕ → Action W SpawnError H
    unfolding or_start
    attach_or_start rc uuid vm = do
      attached ← on_instance vm (instances.try_attach_existing uuid)
      or_start rc uuid vm attached

    abbrev write_pid : ℕ → ℕ → W → W
    write_pid vm pid w =
        let (shared, w') = host.read_instance vm w in
        instances.write_instance vm (record shared { pid = pid }) w'

    -- The worker of a machine that runs, or nothing after an error, which is logged.
    unfoldable pub spawn_watcher :
        K → ℕ → Q → Result SpawnError H → QemuManager K × W → List K × (QemuManager K × W)
    spawn_watcher uuid vm qemu (err x) s = ([], s)
    spawn_watcher uuid vm qemu (ok handle) (m, w) =
        let ctx : WorkerProcessContext K H = record {
          fx_id = uuid;
          qemu = vm;
          handle = handle;
          guest_agent_enabled = instances.has_ga qemu;
          status_poll_interval_secs = instances.status_poll_interval_secs qemu;
        } in
        let (worker, w') = instances.spawn_worker ctx (write_pid vm (instances.pid handle) w) in
        (uuid ∷ [], (record m { vmctl = insert m.vmctl uuid worker }, w'))

    -- A machine that has a worker is passed over.
    unfoldable pub watch : C → K → ℕ → QemuManager K × W → List K × (QemuManager K × W)
    unfolding attach_or_start spawn_watcher
    watch rc uuid vm (m, w) = elim (get m.vmctl uuid) [
      | some worker ↦ ([], (m, w))
      | none ↦
          let (shared, w₁) = host.read_instance vm w in
          let (handle, w₂) = attach_or_start rc uuid vm w₁ in
          spawn_watcher uuid vm shared.qemu handle (m, w₂)
    ]

    unfoldable pub watch_all : C → Map K ℕ → QemuManager K × W → List K × (QemuManager K × W)
    unfolding watch
    watch_all rc [] s = ([], s)
    watch_all rc ((uuid, vm) ∷ vms) s =
        let (started, s') = watch rc uuid vm s in
        let (rest, s'') = watch_all rc vms s' in (started ++ rest, s'')

    unfoldable pub run_watchers : C → QemuManager K × W → List K × (QemuManager K × W)
    unfolding watch_all
    run_watchers rc (m, w) = watch_all rc m.vms (m, w)

    -- What is allocated is upserted with the pid that is found then.
    record_allocated : K → Result CreateError (Unit {0}) → Q → Action W CreateError (Unit {0})
    record_allocated fx_id (err x) qemu w = fail x w
    record_allocated fx_id (ok _) qemu w =
        let (pid, w') = instances.existing_runtime_pid qemu w in
        catch CreateError.metadata (host.record_upsert fx_id qemu pid) w'

    allocate_with : C → K → Q → Action W CreateError (Unit {0})
    unfolding record_allocated
    allocate_with rc fx_id qemu w =
        let (r, (qemu', w')) =
          catch CreateError.allocate (instances.fx_allocate fx_id rc) (qemu, w) in
        record_allocated fx_id r qemu' w'

    unfoldable pub allocate : C → K → Action W CreateError (Unit {0})
    unfolding allocate_with
    allocate rc fx_id = do qemu ← instances.existing_or_new rc fx_id; allocate_with rc fx_id qemu

    -- `fx_start` and `fx_op_verify`, whose outcome is only logged.
    start_verified : C → K → Action (Q × W) CreateError H
    start_verified rc fx_id = do
      handle ← catch CreateError.spawn (instances.fx_start fx_id rc)
      catch CreateError.verify (instances.fx_op_verify handle)
      pure handle

    unfoldable pub insert_running : K → Q → H → Create K W (Unit {0})
    insert_running fx_id qemu handle (m, w) =
        let (vm, w₁) =
          instances.new_instance (record { pid = instances.pid handle; qemu = qemu }) w in
        let ctx : WorkerProcessContext K H = record {
          fx_id = fx_id;
          qemu = vm;
          handle = handle;
          guest_agent_enabled = instances.has_ga qemu;
          status_poll_interval_secs = instances.status_poll_interval_secs qemu;
        } in
        let (worker, w₂) = instances.spawn_worker ctx w₁ in
        (ok tt, (record m { vmctl = insert m.vmctl fx_id worker; vms = insert m.vms fx_id vm }, w₂))

    insert_started : K → Q → Result CreateError H → Create K W (Unit {0})
    unfolding insert_running
    insert_started fx_id qemu (err x) = fail x
    insert_started fx_id qemu (ok handle) = insert_running fx_id qemu handle

    create_with : C → K → Q → Create K W (Unit {0})
    unfolding start_verified insert_started
    create_with rc fx_id qemu (m, w) =
        let (r, (qemu', w')) = start_verified rc fx_id (qemu, w) in
        insert_started fx_id qemu' r (m, w')

    unfoldable pub create : C → K → Create K W (Unit {0})
    unfolding create_with
    create rc fx_id = do
      qemu ← on_world (instances.existing_or_new rc fx_id)
      create_with rc fx_id qemu
