-- ===== src/Qemu/Manager/Examples.antt =====
-- Managers on a host in memory, whose shared cells hold the states on record.
use becky.Base.{
  ℕ, ◌+◌, ◌≡◌, refl, [], ◌∷◌, List, none, some, true, false, ok, get, nat_eq, ◌↔◌, ◌⊎◌, ◌≢◌, arith,
  length, if◌then◌else◌, ◌==◌, Option,
}
use becky.State.{FxExecutionState, running, stopped}
use becky.Os.Memory.{Host, memory_os}
use becky.Runtime.Memory.{memory_runtime}
use becky.SystemCommand.Sample.{empty_host}
use becky.SystemCommand.Signals.{process_exists}
use becky.Qemu.Events.{QemuWorkerEvent}
use becky.Qemu.Events
use becky.Qemu.Manager.{QemuHost, QemuManager, stop}
use becky.Qemu.Manager.Instances.{Instances, Verification}
use becky.Qemu.Manager.Lifecycle.{run_watchers, create}
use becky.Qemu.Manager.Lifecycle.Watchers.{contains, run_watchers-started}
use becky.Qemu.Manager.Lifecycle.Created.{create_outcome}
use becky.Qemu.Manager.Ends.{shutdown, drain_worker_events}
use becky.Qemu.Manager.Ends.Left.{without_worker, shutdown_left}
use becky.Qemu.Manager.Ends.Drained.{last_state, RecordsStates, drain_last_state}
use becky.Qemu.Manager.Reach.{new_manager, Step, Reach, Reach-no_worker}

latest_record : ℕ → List (ℕ × FxExecutionState) → Option FxExecutionState
latest_record k [] = none
latest_record k ((j, state) ∷ cells) = if j == k then some state else latest_record k cells

recorded : ℕ → Host → Option FxExecutionState
unfolding latest_record
recorded k w = latest_record k w.cells

unfoldable recording_host : QemuHost ℕ (Unit {0}) Host
unfolding memory_runtime
recording_host = record {
  runtime = memory_runtime (Unit {0});
  read_instance = λ vm w. (record { pid = 42; qemu = tt }, w);
  send_command = λ sender command w. (ok tt, record w { table = [] });
  join_worker = λ task w. (ok tt, w);
  state_update = λ fx_id state w. (ok tt, record w { cells = (fx_id, state) ∷ w.cells });
  record_upsert = λ fx_id qemu pid w. (ok tt, w);
}

-- Every machine starts, with the pid 42.
unfoldable sample_instances : Instances ℕ (Unit {0}) (Unit {0}) ℕ (Unit {0}) Host
sample_instances = record {
  pid = λ handle. handle;
  has_ga = λ qemu. false;
  status_poll_interval_secs = λ qemu. 10;
  existing_or_new = λ rc fx_id w. (ok tt, w);
  existing_from_metadata_record = λ r fx_id w. (ok tt, w);
  existing_runtime_pid = λ qemu w. (some 42, w);
  try_attach_existing = λ fx_id s. (ok none, s);
  fx_allocate = λ fx_id rc s. (ok tt, s);
  fx_start = λ fx_id rc s. (ok 42, s);
  fx_op_verify = λ handle s. (ok Verification.matches, s);
  new_instance = λ shared w. (w.next, record w { next = w.next + 1 });
  write_instance = λ vm shared w. w;
  spawn_worker =
      λ ctx w. (record { sender = w.next; join = w.next }, record w { next = w.next + 1 });
  read_dir = λ w. (ok [], w);
  record_list = λ w. (ok [], w);
}

recording_host-RecordsStates : RecordsStates recording_host recorded
unfolding recording_host recorded nat_eq
recording_host-RecordsStates = record {
  updated = λ k state w h. ground arith;
  other_kept = λ k i state w ne. ground arith;
  upsert_kept = λ k i qemu pid w. refl;
  read_kept = λ i vm w. refl;
}

abbrev reports : List (QemuWorkerEvent ℕ)
reports =
    record { fx_id = 7; event = Events.WorkerEvent.resume; state = running 42 }
    ∷ record { fx_id = 8; event = Events.WorkerEvent.resume; state = running 43 }
    ∷ record { fx_id = 7; event = Events.WorkerEvent.shutdown; state = stopped }
    ∷ []

abbrev machines : QemuManager ℕ
machines = record { vms = (7, 1) ∷ (8, 2) ∷ []; vmctl = (7, record { sender = 2; join = 3 }) ∷ [] }

drained : (drain_worker_events recording_host reports (machines, empty_host)).0 ≡ ok 3
unfolding drain_worker_events recording_host nat_eq
drained = refl

drain_last_state_example :
    (3 ≡ length reports)
    × (recorded 7 (drain_worker_events recording_host reports (machines, empty_host)).1.1
        ≡ last_state reports 7 (recorded 7 empty_host))
drain_last_state_example =
    drain_last_state recording_host recorded recording_host-RecordsStates reports machines
      empty_host 7 3 drained

joins : (task : ℕ) (w : Host) → (recording_host.join_worker task w).0 ≡ ok tt
unfolding recording_host
joins task w = refl

shutdown_left_example :
    ((shutdown recording_host (machines, empty_host)).0.vmctl ≡ [])
    × (get (shutdown recording_host (machines, empty_host)).0.vms 8
        ≡ without_worker (get machines.vmctl 8) (get machines.vms 8))
shutdown_left_example = shutdown_left recording_host joins (machines, empty_host) 8

run_watchers-started_example :
    let (started, s') = run_watchers recording_host sample_instances tt (machines, empty_host) in
    ((get machines.vmctl 8 ≡ none) ⊎ (get s'.0.vmctl 8 ≡ get machines.vmctl 8))
    × ((contains started 8 ≡ true)
        ↔ ((get machines.vmctl 8 ≡ none) × (¬ (get s'.0.vmctl 8 ≡ none))))
run_watchers-started_example =
    run_watchers-started recording_host sample_instances tt (machines, empty_host) 8

watched : (run_watchers recording_host sample_instances tt (machines, empty_host)).0 ≡ 8 ∷ []
unfolding run_watchers recording_host sample_instances nat_eq
watched = refl

abbrev created : QemuManager ℕ × Host
created = (create recording_host sample_instances tt 7 (new_manager, empty_host)).1

Reach-no_worker_example : get (stop recording_host 7 created).1.0.vmctl 7 ≡ none
unfolding create stop recording_host sample_instances nat_eq process_exists memory_os
Reach-no_worker_example =
    Reach-no_worker recording_host sample_instances (λ name. 0) empty_host
      (stop recording_host 7 created).1 7
      (Reach.next (Reach.next Reach.here (Step.created (new_manager, empty_host) tt 7))
        (Step.stopped created 7))
      refl

-- `created` is the state that the creation leaves.
create_outcome_example : (get created.0.vms 7 ≢ none) × (get created.0.vmctl 7 ≢ none)
unfolding create recording_host sample_instances nat_eq
create_outcome_example = create_outcome recording_host sample_instances 7 tt new_manager empty_host
