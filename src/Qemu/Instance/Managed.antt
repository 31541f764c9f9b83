-- ===== src/Qemu/Instance/Managed.antt =====
-- The calls that becky-fx-qemu/src/manager.rs makes of an instance, filled by those of
-- src/instance.rs.
use becky.Base.{ℕ, List, Result, Action}
use becky.Text.{Text}
use becky.Id.{UuidCrate, FxId}
use becky.Os.{IoError}
use becky.Storage.{SystemConfiguration}
use becky.Qemu.Config.{QemuCrate, QemuMachineRequest, QemuMetadataRecord, to_machine_configuration}
use becky.Qemu.Command.{CommandHost, Qemu}
use becky.Qemu.Instance.{QemuInstance, QemuHandle, CommandText, has_ga, status_poll_interval_secs}
use becky.Qemu.Instance.Existing.{
  existing_runtime_pid, existing_or_new, existing_from_metadata_record,
}
use becky.Qemu.Instance.Comm.{InstanceHost}
use becky.Qemu.Instance.Control.{try_attach_existing, fx_allocate, fx_start, fx_op_verify}
use becky.Qemu.Manager.{QemuRunningInstance, WorkerControlHandle}
use becky.Qemu.Manager.Instances.{Instances, WorkerProcessContext, DirEntry}

-- What is the manager's own: the shared cells, the workers, the directory, and the records.
pub record ManagerHost (K H Q W : Type 0) : Type 0 where
  pub new_instance : QemuRunningInstance Q → W → ℕ × W
  pub write_instance : ℕ → QemuRunningInstance Q → W → W
  pub spawn_worker : WorkerProcessContext K H → W → WorkerControlHandle × W
  pub read_dir : Action W IoError (List (Result IoError DirEntry))
  pub record_list : Action W Text (List (K × QemuMetadataRecord))

-- A call that changes only the host, as a method of an instance.
abbrev as_method : {I W E A : Type 0} → (I → Action W E A) → Action (I × W) E A
as_method call (i, w) = let (r, w') = call i w in (r, (i, w'))

module _ (U : UuidCrate) (B : QemuCrate) {W : Type 0} where
  module _ (host : InstanceHost (FxId U) W) (programs : CommandHost W) where
    module _ (sys_conf : SystemConfiguration) (fx : FxId U) where
      abbrev Line : Type 0
      Line = Qemu programs U B sys_conf fx

      unfoldable pub managed_instances :
          CommandText Line
          → ManagerHost (FxId U) QemuHandle (QemuInstance U B Line) W
          → Instances
              (FxId U)
              (QemuMachineRequest B)
              QemuMetadataRecord
              QemuHandle
              (QemuInstance U B Line)
              W
      unfolding existing_or_new existing_from_metadata_record existing_runtime_pid
          try_attach_existing fx_allocate fx_start fx_op_verify
      managed_instances text manager = record {
        pid = λ handle. handle.process.pid;
        has_ga = λ i. has_ga i;
        status_poll_interval_secs = λ i. status_poll_interval_secs i;
        existing_or_new = λ rc fx_id.
            existing_or_new host.os U B programs sys_conf fx_id text
              (to_machine_configuration B rc sys_conf);
        existing_from_metadata_record =
            λ r fx_id. existing_from_metadata_record host.os U B programs sys_conf fx_id text r;
        existing_runtime_pid = λ i. existing_runtime_pid host.os U B i;
        try_attach_existing = λ fx_id. as_method (try_attach_existing host text fx_id);
        fx_allocate = λ fx_id rc. as_method (fx_allocate host fx_id);
        fx_start = λ fx_id rc. fx_start host text fx_id;
        fx_op_verify = λ handle. fx_op_verify host handle;
        new_instance = manager.new_instance;
        write_instance = manager.write_instance;
        spawn_worker = manager.spawn_worker;
        read_dir = manager.read_dir;
        record_list = manager.record_list;
      }
