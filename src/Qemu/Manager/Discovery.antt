-- ===== src/Qemu/Manager/Discovery.antt =====
-- becky-fx-qemu/src/manager.rs: the machines that a manager finds running.
pub mod Keeps
use becky.Base.{ℕ, List, [], ◌∷◌, Option, none, some, Bool, true, false, Eq}
use becky.Base.{get, insert, Result, ok, err, Action, pure, fail, ◌>>=◌, ◌>>◌, on_world, catch}
use becky.Text.{Text}
use becky.State.{stopped}
use becky.Os.{IoError, ErrorKind}
use becky.Qemu.Errors.{CreateError}
use becky.Qemu.Manager.{QemuHost, QemuManager, QemuRunningInstance}
use becky.Qemu.Manager.Instances.{Instances, DirEntry}

-- The errors of the rest of the file are `CreateError`.
abbrev pub Create : Type 0 → Type 0 → Type 0 → Type 0
Create K W A = Action (QemuManager K × W) CreateError A

module _ {K C R H Q W : Type 0} ⦃e : Eq K⦄ (host : QemuHost K Q W) where
  module _ (instances : Instances K C R H Q W) where
    -- `self.vms.insert`, of a machine in a cell of its own.
    unfoldable pub insert_vm : K → ℕ → Q → Create K W (Unit {0})
    insert_vm fx_id pid qemu (m, w) =
        let (vm, w') = instances.new_instance (record { pid = pid; qemu = qemu }) w in
        (ok tt, (record m { vms = insert m.vms fx_id vm }, w'))

    runtime_pid : Q → Create K W (Option ℕ)
    runtime_pid qemu (m, w) =
        let (pid, w') = instances.existing_runtime_pid qemu w in (ok pid, (m, w'))

    insert_live : K → Q → Option ℕ → Create K W (Option ℕ)
    unfolding insert_vm
    insert_live fx_id qemu none = pure none
    insert_live fx_id qemu (some pid) = insert_vm fx_id pid qemu >> pure (some pid)

    unfoldable pub register_existing : C → K → Create K W (Option ℕ)
    unfolding runtime_pid insert_live
    register_existing rc fx_id = do
      qemu ← on_world (instances.existing_or_new rc fx_id)
      pid ← runtime_pid qemu
      insert_live fx_id qemu pid

    pushed : List (K × ℕ) → K → Option ℕ → List (K × ℕ)
    pushed discovered fx_id none = discovered
    pushed discovered fx_id (some pid) = (fx_id, pid) ∷ discovered

    -- A directory with a name that is UTF-8 is a machine; every other entry is passed over.
    entry_name : DirEntry → Result IoError (Option Text)
    entry_name entry = elim entry.is_dir [
      | err x ↦ err x
      | ok false ↦ ok none
      | ok true ↦ ok entry.file_name
    ]

    register_named : (Text → K) → C → List (K × ℕ) → Option Text → Create K W (List (K × ℕ))
    unfolding register_existing pushed
    register_named from_str rc discovered none = pure discovered
    register_named from_str rc discovered (some name) = do
      pid ← register_existing rc (from_str name)
      pure (pushed discovered (from_str name) pid)

    abbrev of_result : {A : Type 0} → Result IoError A → Create K W A
    of_result (ok a) = pure a
    of_result (err x) = fail (CreateError.io x)

    -- The walk over the directory; what was discovered is kept in reverse.
    discover_entries :
        (Text → K) → C → List (K × ℕ) → List (Result IoError DirEntry) → Create K W (List (K × ℕ))
    unfolding register_named entry_name
    discover_entries from_str rc discovered [] = pure discovered
    discover_entries from_str rc discovered (entry ∷ entries) = do
      found ← of_result entry
      name ← of_result (entry_name found)
      discovered' ← register_named from_str rc discovered name
      discover_entries from_str rc discovered' entries

    unless_missing : IoError → ErrorKind → Create K W (List (Result IoError DirEntry))
    unless_missing x ErrorKind.not_found = pure []
    unless_missing x _ = fail (CreateError.io x)

    found_entries :
        Result IoError (List (Result IoError DirEntry))
        → Create K W (List (Result IoError DirEntry))
    unfolding unless_missing
    found_entries (ok entries) = pure entries
    found_entries (err x) = unless_missing x x.kind

    read_entries : Create K W (List (Result IoError DirEntry))
    unfolding found_entries
    read_entries (m, w) = let (r, w') = instances.read_dir w in found_entries r (m, w')

    -- `discover_existing_from_runtime_dir`, by the reading of a name as an identifier, which cannot
    -- fail.
    unfoldable pub discover_existing_from_runtime_dir : (Text → K) → C → Create K W (List (K × ℕ))
    unfolding read_entries discover_entries
    discover_existing_from_runtime_dir from_str rc = do
      entries ← read_entries
      discover_entries from_str rc [] entries

    -- A record whose machine does not run is recorded as stopped.
    record_discovered : K → Q → Option ℕ → Create K W (Option ℕ)
    unfolding insert_vm
    record_discovered fx_id qemu none =
        on_world (catch CreateError.metadata (host.state_update fx_id stopped)) >> pure none
    record_discovered fx_id qemu (some pid) = insert_vm fx_id pid qemu >> pure (some pid)

    discover_record : List (K × ℕ) → K → R → Create K W (List (K × ℕ))
    unfolding runtime_pid record_discovered pushed
    discover_record discovered fx_id r = do
      qemu ← on_world (instances.existing_from_metadata_record r fx_id)
      pid ← runtime_pid qemu
      found ← record_discovered fx_id qemu pid
      pure (pushed discovered fx_id found)

    discover_records : List (K × ℕ) → List (K × R) → Create K W (List (K × ℕ))
    unfolding discover_record
    discover_records discovered [] = pure discovered
    discover_records discovered ((fx_id, r) ∷ records) = do
      discovered' ← discover_record discovered fx_id r
      discover_records discovered' records

    unfoldable pub discover_existing_from_metadata : Create K W (List (K × ℕ))
    unfolding discover_records
    discover_existing_from_metadata = do
      records ← on_world (catch CreateError.metadata instances.record_list)
      discover_records [] records
