-- ===== src/SystemCommand/Control.antt =====
-- `FxControl` for `FxSystemCommand`: the observed state, start and status.
pub mod Start
pub mod Reattach
pub mod Observed
use becky.Base.{ℕ, List, [], ◌∷◌, Option, none, some, Bool, true, false, map, if◌then◌else◌}
use becky.Base.{Result, ok, err, map_ok, Action, pure, ◌>>=◌, ◌>>◌, on_world, catch}
use becky.Text.{Text, chars}
use becky.Id.{UuidCrate, FxId}
use becky.State.{FxExecutionState, not_started, running, unknown, exited, error}
use becky.State.{ExitStatus, FxDesiredExecutionState}
use becky.Os.{IoError, FilePath, to_string_lossy, Process, process, Os}
use becky.SystemCommand.{
  FxSystemCommand, FxSysCommandError, io, string, unsupported, pid_not_found, empty_command,
  FxSystemProcessRunning, tokio, pid_only, new,
}
use becky.SystemCommand.Match.{command_equal}
use becky.SystemCommand.Launch.{launch_command_line}
use becky.SystemCommand.CommandId.{encode_command_id}
use becky.SystemCommand.PidFile.{
  matches, pid_file_path, write_pid_file, pid_matches_command, running_pid_from_pid_file,
}

-- `for (pid, proc) in s.processes()`, up to the first process that is this command.
unfoldable pub find_command : Text → List Text → List Process → Option ℕ
find_command cmd args [] = none
find_command cmd args (p ∷ ps) =
    if command_equal cmd args p.cmd then some p.pid else find_command cmd args ps

-- `FxControl::id`
abbrev pub id : FxSystemCommand → Text
id c = encode_command_id c.command c.args

observe_pid : FxSystemCommand → ℕ → Option Process → FxExecutionState
observe_pid c pid none = not_started
observe_pid c pid (some p) = if command_equal c.command c.args p.cmd then running pid else unknown

observe_scan : FxExecutionState → Option ℕ → FxExecutionState
observe_scan old none = old
observe_scan old (some pid) = running pid

observe : FxSystemCommand → FxExecutionState → List Process → FxExecutionState
unfolding observe_pid observe_scan find_command
observe c (running pid) table = observe_pid c pid (process table pid)
observe c old table = observe_scan old (find_command c.command c.args table)

from_process : ℕ → Option Process → Result FxSysCommandError FxSystemCommand
from_process pid none = err (pid_not_found pid)
from_process pid (some p) = elim p.cmd [
  | [] ↦ err (empty_command pid)
  | command ∷ args ↦
      let c =
        new (to_string_lossy command) (map to_string_lossy args) FxDesiredExecutionState.running in
      ok (record c { state = running pid })
]

is_running_in : FxSystemCommand → FxExecutionState → List Process → Bool
unfolding find_command
is_running_in c (running pid) table = matches table pid c.command c.args
is_running_in c old table = elim (find_command c.command c.args table) [
  | none ↦ false
  | some pid ↦ true
]

module _ {W : Type 0} (os : Os W) where
  unfoldable pub new_from_pid : ℕ → Action W FxSysCommandError FxSystemCommand
  unfolding from_process
  new_from_pid pid w = let (table, w') = os.new_all w in (from_process pid (process table pid), w')

  unfoldable pub is_running : FxSystemCommand → W → Bool × W
  unfolding is_running_in
  is_running c w = let (table, w') = os.new_all w in (is_running_in c c.state table, w')

  unfoldable pub current_system_state : FxSystemCommand → W → FxExecutionState × W
  unfolding observe
  current_system_state c w = let (table, w') = os.new_all w in (observe c c.state table, w')

-- A method changes the command beside the host.
abbrev pub Method : Type 0 → Type 0 → Type 0
Method W A = Action (FxSystemCommand × W) FxSysCommandError A

module _ {W : Type 0} (os : Os W) where
  set_state : FxExecutionState → Method W (Unit {0})
  set_state state (c, w) = (ok tt, (record c { state = state }, w))

  reattach_pid : Option FilePath → Text → List Text → Action W FxSysCommandError (Option ℕ)
  reattach_pid none cmd args = pure none
  reattach_pid (some path) cmd args = running_pid_from_pid_file os path cmd args

  -- With pid files only the pid that the command itself recorded is looked at.
  recorded_state : FxExecutionState → Text → List Text → Action W FxSysCommandError FxExecutionState
  recorded_state (running pid) cmd args = do
    same ← pid_matches_command os pid cmd args
    pure (if same then running pid else not_started)
  recorded_state _ cmd args = pure not_started

  current_state :
      FxSystemCommand
      → Option FilePath
      → Text
      → List Text
      → Action W FxSysCommandError FxExecutionState
  unfolding recorded_state current_system_state
  current_state c none cmd args w = let (state, w') = current_system_state os c w in (ok state, w')
  current_state c (some path) cmd args w = recorded_state c.state cmd args w

  record_pid : Option FilePath → ℕ → Action W FxSysCommandError (Unit {0})
  record_pid none pid = pure tt
  record_pid (some path) pid = write_pid_file os path pid

  attach : Option FilePath → ℕ → Method W FxSystemProcessRunning
  unfolding set_state record_pid
  attach pid_file pid = do
    set_state (running pid)
    on_world (record_pid pid_file pid)
    pure (pid_only pid)

  create_stdio : Option FilePath → Action W FxSysCommandError (Option ℕ)
  create_stdio none = pure none
  create_stdio (some path) = do file ← catch io (os.create_file path); pure (some file)

  cleanup_spawned_child : ℕ → W → W
  cleanup_spawned_child child w = let (killed, w') = os.kill_child child w in w'

  spawned : Option FilePath → ℕ → Option ℕ → Method W FxSystemProcessRunning
  unfolding cleanup_spawned_child set_state record_pid
  spawned pid_file child none (c, w) = (
    err (string (chars "pid is None")),
    (record c { state = unknown }, cleanup_spawned_child child w),
  )
  spawned pid_file child (some pid) (c, w) =
      let (r, w') = record_pid pid_file pid w in
      (
        map_ok (tokio (record { handle = true; tx = true; pid = pid; child = child })) r,
        (record c { state = running pid }, w'),
      )

  -- What `try_wait` answers is only logged.
  look_at_child : ℕ → Action W FxSysCommandError (Option ℕ)
  look_at_child child w =
      let (status, w') = os.try_wait child w in
      let (pid, w'') = os.child_id child w' in (ok pid, w'')

  spawn_child : FxSystemCommand → Text → List Text → Action W FxSysCommandError ℕ
  unfolding create_stdio
  spawn_child c cmd args = do
    stderr ← create_stdio c.stderr_path
    stdout ← create_stdio c.stdout_path
    catch io (
        os.spawn
          (record { program = cmd; args = args; env = []; stdout = stdout; stderr = stderr }))

  pub spawn_command :
      FxSystemCommand → Option FilePath → Text → List Text → Method W FxSystemProcessRunning
  unfolding spawn_child look_at_child spawned
  spawn_command c pid_file cmd args = do
    child ← on_world (spawn_child c cmd args)
    pid ← on_world (look_at_child child)
    spawned pid_file child pid

  start_from :
      FxSystemCommand
      → Option FilePath
      → Text
      → List Text
      → FxExecutionState
      → Method W FxSystemProcessRunning
  unfolding attach spawn_command
  start_from c pid_file cmd args (running pid) = attach pid_file pid
  start_from c pid_file cmd args _ = spawn_command c pid_file cmd args

  start_unless :
      FxSystemCommand
      → Option FilePath
      → Text
      → List Text
      → Option ℕ
      → Method W FxSystemProcessRunning
  unfolding set_state current_state start_from
  start_unless c pid_file cmd args (some pid) = do set_state (running pid); pure (pid_only pid)
  start_unless c pid_file cmd args none = do
    state ← on_world (current_state c pid_file cmd args)
    start_from c pid_file cmd args state

  start : FxSystemCommand → Option FilePath → Text × List Text → Method W FxSystemProcessRunning
  unfolding reattach_pid start_unless
  start c pid_file (cmd, args) = do
    found ← on_world (reattach_pid pid_file cmd args)
    start_unless c pid_file cmd args found

  unfoldable pub fx_start : (U : UuidCrate) → FxId U → Method W FxSystemProcessRunning
  unfolding start
  fx_start U fx_id (c, w) =
      let c' = record c { desired_state = FxDesiredExecutionState.running } in
      start c' (pid_file_path U c' fx_id) (launch_command_line c') (c', w)

  child_status : ℕ → Result IoError (Option ExitStatus) → Result FxExecutionState FxExecutionState
  child_status pid (ok none) = ok (running pid)
  child_status pid (ok (some status)) = ok (exited status)
  child_status pid (err e) = err (error e.message)

  unfoldable pub fx_status :
      FxSystemCommand → FxSystemProcessRunning → Action W FxExecutionState FxExecutionState
  unfolding child_status observe_pid
  fx_status c (tokio h) w = let (r, w') = os.try_wait h.child w in (child_status h.pid r, w')
  fx_status c (pid_only pid) w =
      let (table, w') = os.new_all w in (ok (observe_pid c pid (process table pid)), w')

-- `fx_archive`
abbrev pub fx_archive : FxSystemProcessRunning → Result FxSysCommandError (Unit {0})
fx_archive fnr = err (unsupported (chars "system-command archive is not implemented"))
