-- ===== src/Bare/Examples.antt =====
-- An engine with two copies on a host in memory.
use becky.Base.{◌≡◌, refl, none, some, [], ◌∷◌, get, nat_eq, list_eq, true, arith}
use becky.Text.{chars}
use becky.Id.{FxId, string}
use becky.Id.Sample.{sample}
use becky.State.{is_running_state, running}
use becky.Os.Memory.{Host, memory_os}
use becky.SystemCommand.{FxSystemCommand, pid_only}
use becky.SystemCommand.Sample.{sleeper, empty_host, process_at}
use becky.SystemCommand.Match.{command_equal}
use becky.SystemCommand.Control
use becky.Bare.{BareEngine, running_commands, fx_start, fx_status, event_loop}
use becky.Bare.Events.{EngineEvent, ControlEvent, app, control}
use becky.Bare.Status.{fx_status_tracked}
use becky.Bare.Tasks.{start_copy, host_after, task_of, command_after, fx_start_each}

two_copies :
    running_commands 2 (chars "sleep") (chars "60" ∷ []) (chars "/" ∷ chars "run" ∷ [])
    ≡ (0, sleeper) ∷ (1, sleeper) ∷ []
unfolding running_commands nat_eq
two_copies = refl

-- The second copy has exited.
abbrev engine : BareEngine
engine = record {
  cmds = (0, sleeper) ∷ (1, sleeper) ∷ [];
  tasks = (0, pid_only 42) ∷ (1, pid_only 43) ∷ [];
}

abbrev host : Host
host = record empty_host { table = process_at 42 (chars "sleep" ∷ chars "60" ∷ []) ∷ [] }

abbrev running_copy : FxSystemCommand
running_copy = record sleeper { state = running 42 }

drops : (fx_status memory_os (engine, host)).0.tasks ≡ (0, pid_only 42) ∷ []
unfolding fx_status memory_os nat_eq command_equal Control.fx_status
drops = refl

found : get (fx_status memory_os (engine, host)).0.cmds 0 ≡ some running_copy
unfolding fx_status memory_os nat_eq command_equal Control.fx_status
found = refl

tracked : ¬ (get (fx_status memory_os (engine, host)).0.tasks 0 ≡ none)
unfolding fx_status memory_os nat_eq command_equal Control.fx_status
tracked lost = absurd (ground arith)

fx_status_tracked_example : is_running_state running_copy.state ≡ true
fx_status_tracked_example = fx_status_tracked memory_os engine host 0 running_copy tracked found

abbrev job_id : FxId sample
job_id = string (chars "fx")

-- The second copy is started on the host that the start of the first leaves.
fx_start_each_example :
    let (r, (c', w')) =
      start_copy memory_os sample job_id 1 sleeper
        (host_after memory_os sample job_id ((0, sleeper) ∷ []) host) in
    let s = fx_start memory_os sample job_id (engine, host) in
    (get s.0.tasks 1 ≡ task_of r)
    × (get s.0.cmds 1 ≡ some (command_after sleeper c' r))
    × (s.1 ≡ host_after memory_os sample job_id engine.cmds host)
fx_start_each_example =
    fx_start_each memory_os sample job_id ((0, sleeper) ∷ []) [] 1 sleeper engine.tasks host
      (λ h. omega arith, tt) tt

-- The loop ends at the shutdown, with the rescan before it done.
stops :
    (event_loop memory_os
      (app EngineEvent.rescan ∷ control ControlEvent.shutdown ∷ app EngineEvent.fx_stop ∷ [])
      (engine, host)).0
    ≡ app EngineEvent.fx_stop ∷ []
unfolding event_loop memory_os nat_eq command_equal Control.fx_status
stops = refl
