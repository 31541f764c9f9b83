-- ===== src/Qemu/Manager/Worker/Examples.antt =====
-- A worker and a manager on hosts in memory, beside what the worker has sent and the tasks that have
-- ended, and beside the states on record.
use becky.Base.{
  if◌then◌else◌, ℕ, ◌≡◌, refl, Bool, true, false, not, Option, none, some, List, [], ◌∷◌, ◌++◌, ok,
  Eq, ◌==◌, any, All, arith, nat_eq, list_eq, Map, get, insert, get-insert, get-insert_other,
  ℕ_discrete,
}
use becky.Text.{chars}
use becky.Id.{FxId, string}
use becky.Id.Sample.{sample}
use becky.State.{FxExecutionState, paused, running}
use becky.Os.Memory.{Host}
use becky.Runtime.Memory.{memory_runtime}
use becky.Runtime.Beside.{os_beside, runtime_beside}
use becky.SystemCommand.Sample.{empty_host}
use becky.Qemu.Config.Sample.{sample_crate, host_conf, machine}
use becky.Qemu.Events
use becky.Qemu.Events.{WorkerCommand, qmp, query_block, QemuWorkerEvent}
use becky.Qemu.Instance.{QemuInstance, QemuHandle, CommandText, RunState, instance_of}
use becky.Qemu.Instance.Comm.{InstanceHost}
use becky.Qemu.Manager.{QemuHost, QemuManager}
use becky.Qemu.Manager.Instances.{WorkerProcessContext}
use becky.Qemu.Manager.Ends.{drain_worker_events}
use becky.Qemu.Manager.Ends.Drained.{last_state, RecordsStates}
use becky.Qemu.Manager.Worker.{
  WorkerHost, WorkerEnd, Received, command, event, scheduled_commands, schedule_all, worker_process,
}
use becky.Qemu.Manager.Worker.Ended.{
  EndsTasks, EndsWhenTold, worker_process_ends, worker_process_leaves_none,
}
use becky.Qemu.Manager.Worker.Updates.{SendsUpdates, reported, worker_process_recorded}

record Seen : Type 0 where
  updates : List (QemuWorkerEvent (FxId sample))
  told : List ℕ
  over : List ℕ

abbrev World : Type 0
World = Seen × Host

abbrev vm : FxId sample
vm = string (chars "vm")

unfoldable text : CommandText (Unit {0})
text = record {
  to_command = λ q. chars "qemu" ∷ [];
  to_single_command = λ q. chars "qemu";
  from_str = λ s. ok tt;
}

abbrev machine_instance : QemuInstance sample sample_crate (Unit {0})
unfolding text
machine_instance = instance_of text host_conf machine vm tt none

-- Every call is answered.
unfoldable answers : InstanceHost (FxId sample) World
answers = record {
  os = os_beside Seen;
  exists = λ path w. (true, w);
  connect_ctl = λ path timeout pause w. (some 1, w);
  connect_ga = λ path timeout pause w. (some (2, 3), w);
  spawn_event_reader = λ ctl w. (4, w);
  query_version = λ ctl w. (ok tt, w);
  query_qmp_schema = λ ctl w. (ok [], w);
  query_status = λ ctl w. (ok (record { running = true; status = RunState.running }), w);
  query_block = λ ctl w. (ok tt, w);
  system_powerdown = λ ctl w. (ok tt, w);
  quit = λ ctl w. (ok tt, w);
  snapshot_save = λ ctl tag path w. (ok tt, w);
  guest_ping = λ qga secs w. (some (ok tt), w);
  guest_info = λ qga secs w. (some (ok []), w);
  state_update = λ fx_id state w. (ok tt, w);
  record_upsert = λ fx_id r w. (ok tt, w);
  storage_create = λ fx_id w. (ok tt, w);
}

unfoldable worker_host :
    WorkerHost (FxId sample) (QemuInstance sample sample_crate (Unit {0})) World
unfolding runtime_beside nat_eq
worker_host = record {
  channels = record {
    send_event = λ e w. w;
    send_update =
        λ e w. let (seen, host) = w in (record seen { updates = seen.updates ++ e ∷ [] }, host);
  };
  tasks = record (runtime_beside Seen _) {
    send_cancel = λ task w. let (seen, host) = w in (record seen { told = task ∷ seen.told }, host);
    join_task = λ task w. let (seen, host) = w in (record seen { over = task ∷ seen.over }, host);
  };
  join_scheduled = λ task w.
      let (seen, host) = w in
      if any (λ told. told == task) seen.told
      then (true, (record seen { over = task ∷ seen.over }, host))
      else (false, w);
  send_command = λ sender cmd w. (ok tt, w);
  read_instance = λ cell w. (record { pid = 42; qemu = machine_instance }, w);
  write_instance = λ cell shared w. w;
  take_qapi_event_rx = λ cell w. (true, w);
  abort = λ task w. w;
}

updates_sent : World → List (QemuWorkerEvent (FxId sample))
updates_sent w = w.0.updates

answers-SendsUpdates : SendsUpdates answers worker_host updates_sent
unfolding answers worker_host updates_sent runtime_beside memory_runtime
answers-SendsUpdates = record {
  on_send = λ e w. refl;
  on_event = λ e w. refl;
  on_read = λ cell w. refl;
  on_write = λ cell shared w. refl;
  on_take = λ cell w. refl;
  on_abort = λ task w. refl;
  on_join = λ task w. refl;
  on_join_scheduled = λ task w. ground arith;
  on_cancel = λ task w. refl;
  on_spawn = λ task w. refl;
  on_status = λ ctl w. refl;
  on_block = λ ctl w. refl;
  on_powerdown = λ ctl w. refl;
  on_ping = λ secs qga w. refl;
  on_info = λ secs qga w. refl;
}

alive : ℕ → World → Bool
alive task w = not (any (λ over. over == task) w.0.over)

worker_host-EndsTasks : EndsTasks worker_host alive
unfolding worker_host alive nat_eq
worker_host-EndsTasks = record {
  joined = λ task w. ground arith;
  join_kept = λ task other w over. ground arith;
  scheduled_joined = λ task w done. ground arith;
  scheduled_kept = λ task other w over. ground arith;
  abort_kept = λ task other w over. over;
}

abbrev context : WorkerProcessContext (FxId sample) QemuHandle
context = record {
  fx_id = vm;
  qemu = 1;
  handle = record {
    process = record { pid = 42; name = []; args = [] };
    ctl = 1;
    schema = [];
    event_reader = 4;
    ga = some 2;
    ga_info = some [];
    ga_task = some 3;
  };
  guest_agent_enabled = true;
  status_poll_interval_secs = 10;
}

abbrev messages : List Received
messages =
    command (some (qmp Events.QmpCmd.status))
    ∷ event (some Events.Event.resume)
    ∷ event (some Events.Event.wakeup)
    ∷ event (some Events.Event.stop)
    ∷ command (some WorkerCommand.shutdown)
    ∷ event (some Events.Event.shutdown)
    ∷ []

abbrev start : World
start = (record { updates = []; told = []; over = [] }, empty_host)

took : (worker_host.take_qapi_event_rx 1 start).0 ≡ true
unfolding worker_host
took = refl

was_told : ℕ → World → Bool
was_told task w = any (λ told. told == task) w.0.told

worker_host-EndsWhenTold : EndsWhenTold worker_host was_told
unfolding worker_host was_told nat_eq
worker_host-EndsWhenTold = record {
  cancelled = λ task w. ground arith;
  cancel_kept = λ task other w told. ground arith;
  join_kept = λ task other w told. ground arith;
  ends = λ task w told. ground arith;
}

worker_process_ends_example :
    (worker_process answers worker_host context 7 messages start).0 ≡ WorkerEnd.ended
worker_process_ends_example =
    worker_process_ends answers worker_host was_told worker_host-EndsWhenTold context 7 messages
      start took

is_ended : (worker_process answers worker_host context 7 messages start).0 ≡ WorkerEnd.ended
unfolding worker_process worker_host answers nat_eq
is_ended = refl

worker_process_leaves_none_example :
    All
      (λ t. alive t (worker_process answers worker_host context 7 messages start).1 ≡ false)
      (4
        ∷ (schedule_all worker_host 7 10
            (scheduled_commands true)
            (worker_host.take_qapi_event_rx 1 start).1).0)
worker_process_leaves_none_example =
    worker_process_leaves_none answers worker_host alive worker_host-EndsTasks context 7 messages
      start took is_ended

-- The last event is received after the shutdown.
two_reported :
    reported vm 42 messages
    ≡ record { fx_id = vm; event = Events.WorkerEvent.resume; state = running 42 }
      ∷ record { fx_id = vm; event = Events.WorkerEvent.stop; state = paused 42 }
      ∷ []
unfolding Events.forwarded Events.state_from_worker_event
two_reported = refl

ids_dec : Discrete (FxId sample)
unfolding list_eq
ids_dec = hlevel (list_eq.dec, ℕ_discrete)

instance id_eq : Eq (FxId sample)
unfolding ids_dec
id_eq = record { dec = ids_dec }

abbrev Recorded : Type 0
Recorded = Map (FxId sample) FxExecutionState × Host

unfoldable record_host : QemuHost (FxId sample) (Unit {0}) Recorded
unfolding runtime_beside id_eq
record_host = record {
  runtime = runtime_beside (Map (FxId sample) FxExecutionState) (Unit {0});
  read_instance = λ cell w. (record { pid = 42; qemu = tt }, w);
  send_command = λ sender cmd w. (ok tt, w);
  join_worker = λ task w. (ok tt, w);
  state_update = λ fx_id state w. (ok tt, (insert w.0 fx_id state, w.1));
  record_upsert = λ fx_id qemu pid w. (ok tt, w);
}

state_of : FxId sample → Recorded → Option FxExecutionState
unfolding id_eq
state_of k w = get w.0 k

record_host-RecordsStates : RecordsStates record_host state_of
unfolding record_host state_of id_eq
record_host-RecordsStates = record {
  updated = λ k state w h. get-insert w.0 k state;
  other_kept = λ k i state w ne. get-insert_other w.0 k state i ne;
  upsert_kept = λ k i qemu pid w. refl;
  read_kept = λ i cell w. refl;
}

abbrev manager : QemuManager (FxId sample)
manager = record { vms = []; vmctl = [] }

abbrev nothing_recorded : Recorded
nothing_recorded = ([], empty_host)

none_sent : updates_sent start ≡ []
unfolding updates_sent
none_sent = refl

abbrev sent : List (QemuWorkerEvent (FxId sample))
sent = updates_sent (worker_process answers worker_host context 7 messages start).1

drained : (drain_worker_events record_host sent (manager, nothing_recorded)).0 ≡ ok 2
unfolding drain_worker_events record_host updates_sent worker_process worker_host answers
drained = refl

worker_process_recorded_example :
    state_of vm (drain_worker_events record_host sent (manager, nothing_recorded)).1.1
    ≡ last_state (reported vm 42 messages) vm (state_of vm nothing_recorded)
worker_process_recorded_example =
    worker_process_recorded answers worker_host updates_sent answers-SendsUpdates record_host
      state_of record_host-RecordsStates context 7 messages start manager nothing_recorded vm 2
      none_sent took drained
