-- ===== src/Qemu/Manager/Instances.antt =====
-- becky-fx-qemu/src/manager.rs: what the manager calls of an instance, and the machines that it
-- shares with their workers. `C` is a request for resources, `R` a metadata record, and `H` a handle
-- of a running machine.
use becky.Base.{ℕ, Bool, List, Option, Result, Action}
use becky.Text.{Text}
use becky.Os.{IoError}
use becky.Qemu.Errors.{CreateError, SpawnError, AllocateError, VerifyError}
use becky.Qemu.Manager.{QemuRunningInstance, WorkerControlHandle}

-- `becky_engine::verify::Verification`
pub data Verification : Type 0 where
  matches mismatch_uuid mismatch_name mismatch_no_name : Verification
  mismatch_target_type mismatch_cpu unknown : Verification

-- What a worker is spawned with, its channels aside.
pub record WorkerProcessContext (K H : Type 0) : Type 0 where
  pub fx_id : K
  pub qemu : ℕ
  pub handle : H
  pub guest_agent_enabled : Bool
  pub status_poll_interval_secs : ℕ

-- An entry of a directory: its name, if that is UTF-8, and whether it is a directory.
pub record DirEntry : Type 0 where
  pub file_name : Option Text
  pub is_dir : Result IoError Bool

pub record Instances (K C R H Q W : Type 0) : Type 0 where
  pub pid : H → ℕ
  pub has_ga : Q → Bool
  pub status_poll_interval_secs : Q → ℕ
  pub existing_or_new : C → K → Action W CreateError Q
  pub existing_from_metadata_record : R → K → Action W CreateError Q
  pub existing_runtime_pid : Q → W → Option ℕ × W
  pub try_attach_existing : K → Action (Q × W) SpawnError (Option H)
  pub fx_allocate : K → C → Action (Q × W) AllocateError (Unit {0})
  pub fx_start : K → C → Action (Q × W) SpawnError H
  pub fx_op_verify : H → Action (Q × W) VerifyError Verification
  -- The cells that hold the shared machines.
  pub new_instance : QemuRunningInstance Q → W → ℕ × W
  pub write_instance : ℕ → QemuRunningInstance Q → W → W
  -- `tokio::spawn(worker_process(…))` with a new command channel.
  pub spawn_worker : WorkerProcessContext K H → W → WorkerControlHandle × W
  -- The entries of the machines' root directory, each of which may fail to be read.
  pub read_dir : Action W IoError (List (Result IoError DirEntry))
  -- The records of this provider.
  pub record_list : Action W Text (List (K × R))
