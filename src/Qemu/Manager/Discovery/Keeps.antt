-- ===== src/Qemu/Manager/Discovery/Keeps.antt =====
-- The workers of a manager that finds machines.
use becky.Base.{
  ℕ, List, [], ◌∷◌, Option, none, some, Eq, Result, ok, err, Keeps, Keeps-bind, Keeps-pure,
  Keeps-fail, Action, on_world, catch,
}
use becky.Text.{Text}
use becky.State.{stopped}
use becky.Os.{IoError, ErrorKind}
use becky.Qemu.Errors.{CreateError}
use becky.Qemu.Manager.{QemuHost, QemuManager}
use becky.Qemu.Manager.Instances.{Instances, DirEntry}
use becky.Qemu.Manager.Known.{WorkersKnown, insert_vms_known}
use becky.Qemu.Manager.Discovery.{
  insert_vm, insert_live, runtime_pid, register_existing, pushed, entry_name, register_named,
  of_result, discover_entries, found_entries, unless_missing, read_entries,
  discover_existing_from_runtime_dir, record_discovered, discover_record, discover_records,
  discover_existing_from_metadata,
}

module _ {K C R H Q W : Type 0} ⦃e : Eq K⦄ (host : QemuHost K Q W) where
  module _ (instances : Instances K C R H Q W) where
    abbrev Known : QemuManager K × W → Type 0
    Known s = WorkersKnown s.0

    insert_vm-Keeps :
        (k : K) (pid : ℕ) (qemu : Q) → Keeps Known (insert_vm host instances k pid qemu)
    unfolding insert_vm
    insert_vm-Keeps k pid qemu = record { at = λ s h. insert_vms_known s.0 k _ h }

    insert_live-Keeps :
        (k : K) (qemu : Q) (pid : Option ℕ) → Keeps Known (insert_live host instances k qemu pid)
    unfolding insert_live
    insert_live-Keeps k qemu none = Keeps-pure none
    insert_live-Keeps k qemu (some pid) =
        Keeps-bind (insert_vm-Keeps k pid qemu) (λ _. Keeps-pure (some pid))

    runtime_pid-Keeps : (qemu : Q) → Keeps Known (runtime_pid host instances qemu)
    unfolding runtime_pid
    runtime_pid-Keeps qemu = record { at = λ s h. h }

    on_world-Keeps : {A : Type 0} (act : Action W CreateError A) → Keeps Known (on_world act)
    on_world-Keeps act = record { at = λ s h. h }

    pub register_existing-Keeps :
        (rc : C) (k : K) → Keeps Known (register_existing host instances rc k)
    unfolding register_existing
    register_existing-Keeps rc k =
        Keeps-bind (on_world-Keeps (instances.existing_or_new rc k))
          (λ qemu. Keeps-bind (runtime_pid-Keeps qemu) (insert_live-Keeps k qemu))

    register_named-Keeps :
        (from_str : Text → K) (rc : C) (l : List (K × ℕ)) (name : Option Text)
        → Keeps Known (register_named host instances from_str rc l name)
    unfolding register_named
    register_named-Keeps from_str rc l none = Keeps-pure l
    register_named-Keeps from_str rc l (some name) =
        Keeps-bind (register_existing-Keeps rc (from_str name))
          (λ pid. Keeps-pure (pushed host instances l (from_str name) pid))

    of_result-Keeps : {A : Type 0} (r : Result IoError A) → Keeps Known (of_result host instances r)
    of_result-Keeps (ok a) = Keeps-pure a
    of_result-Keeps (err x) = Keeps-fail (CreateError.io x)

    discover_entries-Keeps :
        (from_str : Text → K) (rc : C) (l : List (K × ℕ)) (entries : List (Result IoError DirEntry))
        → Keeps Known (discover_entries host instances from_str rc l entries)
    unfolding discover_entries
    discover_entries-Keeps from_str rc l [] = Keeps-pure l
    discover_entries-Keeps from_str rc l (entry ∷ entries) =
        Keeps-bind (of_result-Keeps entry) (λ found.
          Keeps-bind (of_result-Keeps (entry_name host instances found)) (λ name.
            Keeps-bind (register_named-Keeps from_str rc l name)
              (λ l'. discover_entries-Keeps from_str rc l' entries)))

    unless_missing-Keeps :
        (x : IoError) (kind : ErrorKind) → Keeps Known (unless_missing host instances x kind)
    unfolding unless_missing
    unless_missing-Keeps x ErrorKind.not_found = Keeps-pure []
    unless_missing-Keeps x ErrorKind.invalid_input = Keeps-fail (CreateError.io x)
    unless_missing-Keeps x ErrorKind.other = Keeps-fail (CreateError.io x)

    found_entries-Keeps :
        (r : Result IoError (List (Result IoError DirEntry)))
        → Keeps Known (found_entries host instances r)
    unfolding found_entries
    found_entries-Keeps (ok entries) = Keeps-pure entries
    found_entries-Keeps (err x) = unless_missing-Keeps x x.kind

    read_entries-Keeps : Keeps Known (read_entries host instances)
    unfolding read_entries
    read_entries-Keeps = record {
      at = λ s h. (found_entries-Keeps (instances.read_dir s.1).0).at _ h;
    }

    pub discover_existing_from_runtime_dir-Keeps :
        (from_str : Text → K) (rc : C)
        → Keeps Known (discover_existing_from_runtime_dir host instances from_str rc)
    unfolding discover_existing_from_runtime_dir
    discover_existing_from_runtime_dir-Keeps from_str rc =
        Keeps-bind read_entries-Keeps (discover_entries-Keeps from_str rc [])

    record_discovered-Keeps :
        (k : K) (qemu : Q) (pid : Option ℕ)
        → Keeps Known (record_discovered host instances k qemu pid)
    unfolding record_discovered
    record_discovered-Keeps k qemu none =
        Keeps-bind (on_world-Keeps (catch CreateError.metadata (host.state_update k stopped)))
          (λ _. Keeps-pure none)
    record_discovered-Keeps k qemu (some pid) =
        Keeps-bind (insert_vm-Keeps k pid qemu) (λ _. Keeps-pure (some pid))

    discover_record-Keeps :
        (l : List (K × ℕ)) (k : K) (r : R) → Keeps Known (discover_record host instances l k r)
    unfolding discover_record
    discover_record-Keeps l k r =
        Keeps-bind (on_world-Keeps (instances.existing_from_metadata_record r k)) (λ qemu.
          Keeps-bind (runtime_pid-Keeps qemu) (λ pid.
            Keeps-bind (record_discovered-Keeps k qemu pid)
              (λ found. Keeps-pure (pushed host instances l k found))))

    discover_records-Keeps :
        (l : List (K × ℕ)) (records : List (K × R))
        → Keeps Known (discover_records host instances l records)
    unfolding discover_records
    discover_records-Keeps l [] = Keeps-pure l
    discover_records-Keeps l ((k, r) ∷ records) =
        Keeps-bind (discover_record-Keeps l k r) (λ l'. discover_records-Keeps l' records)

    pub discover_existing_from_metadata-Keeps :
        Keeps Known (discover_existing_from_metadata host instances)
    unfolding discover_existing_from_metadata
    discover_existing_from_metadata-Keeps =
        Keeps-bind (on_world-Keeps (catch CreateError.metadata instances.record_list))
          (discover_records-Keeps [])
