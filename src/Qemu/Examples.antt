-- ===== src/Qemu/Examples.antt =====
-- Shell words, and stops of a machine on a host in memory, with the theorems at concrete data.
use becky.Base.{ℕ, ◌≡◌, refl, [], ◌∷◌, none, some, true, false, Bool, ok, err, map}
use becky.Base.{if◌then◌else◌, list_eq, nat_eq, get}
use becky.Text.{chars}
use becky.Os.Memory.{Host, memory_os}
use becky.Runtime.Memory.{memory_runtime}
use becky.SystemCommand.Sample.{empty_host, process_at}
use becky.SystemCommand.Signals.{process_exists}
use becky.Qemu.Shell.{command_line}
use becky.Qemu.Shell.Words.{words, between, words-command_line}
use becky.Qemu.Commands.{ga_supports_command, schema_supports_command, command}
use becky.Qemu.Manager.Waits.{qemu_wait_rounds}
use becky.Base.{arith}
use becky.Runtime.Memory.{memory_runtime-KeepsTime}
use becky.Qemu.Manager.{
  poll_exit, wait_for_process_exit, QemuHost, QemuManager, stop, metadata, not_found,
}
use becky.Qemu.Manager.Stops.{stop_removes, stop_again}

line : command_line (map chars ("-name" ∷ "it's" ∷ [])) ≡ chars "-name 'it'\\''s'"
unfolding command_line
line = refl

words-command_line_example :
    words between (command_line (map chars ("-name" ∷ "it's" ∷ "" ∷ [])))
    ≡ some (map chars ("-name" ∷ "it's" ∷ "" ∷ []))
words-command_line_example = words-command_line (map chars ("-name" ∷ "it's" ∷ "" ∷ []))

agent_commands :
    (ga_supports_command
        (record { enabled = true; name = chars "guest-ping" } ∷ [])
        (chars "GUEST_PING")
      ≡ true)
    × (ga_supports_command
          (record { enabled = false; name = chars "guest-ping" } ∷ [])
          (chars "guest-ping")
        ≡ false)
unfolding ga_supports_command
agent_commands = (refl, refl)

schema_commands :
    schema_supports_command (command (chars "query-status") ∷ []) (chars "QUERY-STATUS") ≡ true
unfolding schema_supports_command
schema_commands = refl

-- The power button ends every process, and the metadata may fail.
unfoldable pub machine_host : Bool → QemuHost ℕ (Unit {0}) Host
unfolding memory_runtime
machine_host metadata_works = record {
  runtime = memory_runtime (Unit {0});
  read_instance = λ vm w. (record { pid = 42; qemu = tt }, w);
  send_command = λ sender command w. (ok tt, record w { table = [] });
  join_worker = λ task w. (ok tt, w);
  state_update = λ fx_id state w. (if metadata_works then ok tt else err (chars "no database"), w);
  record_upsert = λ fx_id qemu pid w. (ok tt, w);
}

abbrev pub machines : QemuManager ℕ
machines = record { vms = (7, 1) ∷ []; vmctl = (7, record { sender = 2; join = 3 }) ∷ [] }

abbrev pub machine_runs : Host
machine_runs = record empty_host { table = process_at 42 (chars "qemu" ∷ []) ∷ [] }

stops : (stop (machine_host true) 7 (machines, machine_runs)).0 ≡ ok tt
unfolding stop machine_host memory_os nat_eq process_exists
stops = refl

stop_removes_example :
    let after = (stop (machine_host true) 7 (machines, machine_runs)).1.0 in
    (vm : ℕ) × (get machines.vms 7 ≡ some vm)
    × ((u : Host) × ((process_exists
            (machine_host true).runtime.os
            ((machine_host true).read_instance vm machine_runs).0.pid
            u).0
          ≡ false))
    × ((get after.vms 7 ≡ none) × (get after.vmctl 7 ≡ none))
stop_removes_example = stop_removes (machine_host true) 7 machines machine_runs stops

fails_on_metadata :
    (stop (machine_host false) 7 (machines, machine_runs)).0 ≡ err (metadata (chars "no database"))
unfolding stop machine_host memory_os nat_eq process_exists
fails_on_metadata = refl

stop_again_example :
    (stop
      (machine_host false)
      7
      ((stop (machine_host false) 7 (machines, machine_runs)).1.0, empty_host)).0
    ≡ err (not_found 7)
stop_again_example =
    stop_again (machine_host false) 7 machines machine_runs empty_host (chars "no database")
      fails_on_metadata

qemu_wait_rounds_run :
    poll_exit (machine_host true) 5000 42 30000 machine_runs
    ≡ wait_for_process_exit (machine_host true) 42 30000 machine_runs
unfolding machine_host memory_runtime
qemu_wait_rounds_run =
    qemu_wait_rounds (machine_host true) (memory_runtime-KeepsTime (Unit {0})) 42 30000 5000
      machine_runs (omega arith)
