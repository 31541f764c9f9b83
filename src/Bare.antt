-- ===== src/Bare.antt =====
-- examples/bare/src/engine.rs and src/main.rs: the engine that runs copies of one system command.
pub mod Events
pub mod Status
pub mod Tasks
mod Examples
use becky.Base.{
  ℕ, zero, suc, ◌+◌, ◌%◌, ◌^◌, Bool, true, false, Option, none, some, List, [], ◌∷◌, ◌++◌, nat_eq,
}
use becky.Base.{Map, get, insert, remove, Result, ok, err, map, if◌then◌else◌}
use becky.Text.{Text, chars}
use becky.Text.Decimal.{decimal}
use becky.Id.{UuidCrate, FxId, string, to_string}
use becky.State.{FxExecutionState, FxDesiredExecutionState, is_running_state}
use becky.Os.{FilePath, DiskUsage, Os}
use becky.SystemCommand.{FxSystemCommand, FxSystemProcessRunning, FxSysCommandError, new}
use becky.SystemCommand.Signals
use becky.SystemCommand.Control
use becky.Bare.Events.{EngineEvent, ControlEvent, Event, app, control}

-- The commands of the shared state and the tasks that run, by the number of their copy.
pub record BareEngine : Type 0 where
  pub cmds : Map ℕ FxSystemCommand
  pub tasks : Map ℕ FxSystemProcessRunning

abbrev pub copy : Text → List Text → FilePath → FxSystemCommand
copy cmd args pid_directory = record (new cmd args FxDesiredExecutionState.running) {
  pid_directory = some pid_directory;
}

-- `BareRunningCommands::new`, with the directory for pid files that was chosen.
unfoldable pub running_commands : ℕ → Text → List Text → FilePath → Map ℕ FxSystemCommand
unfolding nat_eq
running_commands zero cmd args pid_directory = []
running_commands (suc n) cmd args pid_directory =
    insert (running_commands n cmd args pid_directory) n (copy cmd args pid_directory)

-- `get_mut`, where the key is there.
unfoldable pub set_state : Map ℕ FxSystemCommand → ℕ → FxExecutionState → Map ℕ FxSystemCommand
unfolding nat_eq
set_state cmds id status = elim (get cmds id) [
  | none ↦ cmds
  | some cmd_spec ↦ insert cmds id (record cmd_spec { state = status })
]

abbrev pub keys : {V : Type 0} → Map ℕ V → List ℕ
keys tasks = map (λ entry. entry.0) tasks

-- A command that started is kept as it is then; one that did not stays as it was.
unfoldable pub started :
    ℕ → FxSystemCommand → Result FxSysCommandError FxSystemProcessRunning → BareEngine → BareEngine
unfolding nat_eq
started id cmd_spec (ok c) engine = record {
  cmds = insert engine.cmds id cmd_spec;
  tasks = insert engine.tasks id c;
}
started id cmd_spec (err x) engine = engine

-- What follows the status of a task that was taken out.
unfoldable pub observed :
    ℕ → FxSystemProcessRunning → Result FxExecutionState FxExecutionState → BareEngine → BareEngine
unfolding set_state nat_eq
observed id process (ok status) engine = record {
  cmds = set_state engine.cmds id status;
  tasks = if is_running_state status then insert engine.tasks id process else engine.tasks;
}
observed id process (err status) engine = record engine { cmds = set_state engine.cmds id status }

module _ {W : Type 0} (os : Os W) where
  module _ (U : UuidCrate) (fx_id : FxId U) where
    abbrev pub instance_fx_id : ℕ → FxId U
    unfolding to_string decimal
    instance_fx_id id = string (to_string U fx_id ++ (chars "-" ++ decimal id))

    unfoldable pub start_all : List (ℕ × FxSystemCommand) → BareEngine × W → BareEngine × W
    unfolding started
    start_all [] s = s
    start_all ((id, cmd_spec) ∷ command_specs) (engine, w) =
        let (r, (cmd_spec', w')) = Control.fx_start os U (instance_fx_id id) (cmd_spec, w) in
        start_all command_specs (started id cmd_spec' r engine, w')

    -- `fx_start`, and the assignment of its tasks in `mainloop`.
    unfoldable pub fx_start : BareEngine × W → BareEngine × W
    unfolding start_all
    fx_start (engine, w) = start_all engine.cmds (record engine { tasks = [] }, w)

  unfoldable pub status_of_task : ℕ → FxSystemProcessRunning → BareEngine × W → BareEngine × W
  unfolding observed nat_eq
  status_of_task id process (engine, w) = elim (get engine.cmds id) [
    | none ↦ (record engine { tasks = insert engine.tasks id process }, w)
    | some command ↦
        let (r, w') = Control.fx_status os command process w in (observed id process r engine, w')
  ]

  unfoldable pub status_of : ℕ → BareEngine × W → BareEngine × W
  unfolding status_of_task nat_eq
  status_of id (engine, w) = elim (get engine.tasks id) [
    | none ↦ (engine, w)
    | some process ↦ status_of_task id process (record engine { tasks = remove engine.tasks id }, w)
  ]

  unfoldable pub status_all : List ℕ → BareEngine × W → BareEngine × W
  unfolding status_of
  status_all [] s = s
  status_all (id ∷ ids) s = status_all ids (status_of id s)

  unfoldable pub fx_status : BareEngine × W → BareEngine × W
  unfolding status_all
  fx_status (engine, w) = status_all (keys engine.tasks) (engine, w)

  -- Errors are only logged.
  unfoldable pub fx_stop : Map ℕ FxSystemProcessRunning → W → W
  unfolding Signals.stop
  fx_stop [] w = w
  fx_stop ((id, c) ∷ tasks) w = fx_stop tasks (Signals.stop os c w).1

  unfoldable pub destroy_one : ℕ → BareEngine × W → BareEngine × W
  unfolding Signals.destroy nat_eq
  destroy_one id (engine, w) = elim (get engine.tasks id) [
    | none ↦ (engine, w)
    | some process ↦
        (record engine { tasks = remove engine.tasks id }, (Signals.destroy os (process, w)).1.1)
  ]

  unfoldable pub destroy_all : List ℕ → BareEngine × W → BareEngine × W
  unfolding destroy_one
  destroy_all [] s = s
  destroy_all (id ∷ ids) s = destroy_all ids (destroy_one id s)

  unfoldable pub fx_destroy : BareEngine × W → BareEngine × W
  unfolding destroy_all
  fx_destroy (engine, w) = destroy_all (keys engine.tasks) (engine, w)

  -- The sum of what the tasks account for, of 64 bits, which wraps around in a release build.
  unfoldable pub sum_of :
      (FxSystemProcessRunning → W → ℕ × W) → ℕ → Map ℕ FxSystemProcessRunning → W → ℕ × W
  sum_of metric sum [] w = (sum, w)
  sum_of metric sum ((id, task) ∷ tasks) w =
      let (n, w') = metric task w in sum_of metric ((sum + n) % 2 ^ 64) tasks w'

  abbrev accumulated_cpu_time : BareEngine → W → ℕ × W
  unfolding sum_of Signals.accumulated_cpu_time
  accumulated_cpu_time engine = sum_of (Signals.accumulated_cpu_time os) 0 engine.tasks

  abbrev memory : BareEngine → W → ℕ × W
  unfolding sum_of Signals.memory
  memory engine = sum_of (Signals.memory os) 0 engine.tasks

  abbrev virtual_memory : BareEngine → W → ℕ × W
  unfolding sum_of Signals.virtual_memory
  virtual_memory engine = sum_of (Signals.virtual_memory os) 0 engine.tasks

  abbrev run_time : BareEngine → W → ℕ × W
  unfolding sum_of Signals.run_time
  run_time engine = sum_of (Signals.run_time os) 0 engine.tasks

  -- What a rescan reads of each task and logs.
  account : Map ℕ FxSystemProcessRunning → W → W
  unfolding Signals.accumulated_cpu_time Signals.memory Signals.virtual_memory Signals.run_time
  account [] w = w
  account ((id, c) ∷ tasks) w =
      let (cpu_time, w₁) = Signals.accumulated_cpu_time os c w in
      let (usage, w₂) = Signals.disk_usage os c w₁ in
      let (resident, w₃) = Signals.memory os c w₂ in
      let (address_space, w₄) = Signals.virtual_memory os c w₃ in
      account tasks (Signals.run_time os c w₄).1

  -- A rescan, with whether all commands have exited.
  unfoldable pub rescan_tasks : BareEngine × W → Bool × (BareEngine × W)
  unfolding fx_status account
  rescan_tasks s =
      let (engine, w) = fx_status s in
      let w' = account engine.tasks w in
      elim engine.tasks [ [] ↦ (true, (engine, w')) | task ∷ tasks ↦ (false, (engine, w')) ]

  -- What one event does, with whether it ends the loop.
  unfoldable pub handle : Event → BareEngine × W → Bool × (BareEngine × W)
  unfolding rescan_tasks
  handle (app EngineEvent.rescan) s = rescan_tasks s
  handle (control ControlEvent.shutdown) s = (true, s)
  handle _ s = (false, s)

  -- The loop over the events that the receiver hands out until it is closed, with what it leaves of
  -- them; its end is a success, whichever it is.
  unfoldable pub event_loop : List Event → BareEngine × W → List Event × (BareEngine × W)
  unfolding handle
  event_loop [] s = ([], s)
  event_loop (ev ∷ events) s =
      let (last, s') = handle ev s in
      elim last [ true ↦ (events, s') | false ↦ event_loop events s' ]

  -- `fx_start` fails for no state, so that the exit code 2 is never used.
  unfoldable pub mainloop :
      (U : UuidCrate) → FxId U → List Event → BareEngine × W → List Event × (BareEngine × W)
  unfolding fx_start event_loop
  mainloop U fx_id events s = event_loop events (fx_start U fx_id s)
