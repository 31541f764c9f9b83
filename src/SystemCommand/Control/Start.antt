-- ===== src/SystemCommand/Control/Start.antt =====
-- What a start leaves in the command, on every path.
use becky.Base.{ℕ, ◌≡◌, refl, subst, ◌⊎◌, inl, inr, List, Option, none, some}
use becky.Base.{Result, ok, err, Action, on_world, ◌>>=◌, map_ok, continue}
use becky.Text.{Text, chars}
use becky.Id.{UuidCrate, FxId}
use becky.State.{FxExecutionState, running, unknown, FxDesiredExecutionState}
use becky.Os.{IoError, Os, FilePath}
use becky.SystemCommand.{
  FxSystemCommand, FxSysCommandError, io, string, FxSystemProcessRunning, pid_only, get_pid,
}
use becky.SystemCommand.PidFile.{pid_file_path}
use becky.SystemCommand.PidFile.Trust.{IsIo, write_pid_file-IsIo}
use becky.SystemCommand.Launch.{launch_command_line}
use becky.SystemCommand.Control.{
  fx_start, start, start_unless, start_from, spawn_command, attach, spawned, reattach_pid,
  current_state, record_pid, spawn_child, look_at_child,
}

-- What a failed start did to the command: nothing, or it lost sight of a child that had no pid any
-- more, or it recorded the pid of a process and could not write it down.
abbrev pub Failed : FxSystemCommand → FxSysCommandError → FxSystemCommand → Type 0
Failed c e c' =
    (c' ≡ c)
    ⊎ ((c' ≡ record c { state = unknown }) × (e ≡ string (chars "pid is None")))
    ⊎ ((pid : ℕ) × (x : IoError) × (c' ≡ record c { state = running pid }) × (e ≡ io x))

-- A handle comes with a running state at its pid.
abbrev pub Started :
    {W : Type 0}
    → FxSystemCommand
    → Result FxSysCommandError FxSystemProcessRunning × (FxSystemCommand × W)
    → Type 0
Started c (ok h, (c', w)) = c' ≡ record c { state = running (get_pid h) }
Started c (err e, (c', w)) = Failed c e c'

map_ok-continue :
    {S A : Type 0} (h : A) (r : Result FxSysCommandError (Unit {0})) (s : S)
    → ◌≡◌ {A = Result FxSysCommandError A × S} (map_ok h r, s) (continue r (λ _ t. (ok h, t)) s)
map_ok-continue h (ok _) s = refl
map_ok-continue h (err e) s = refl

module _ {W : Type 0} (os : Os W) (c : FxSystemCommand) where
  Started-continue :
      {A : Type 0} (r : Result FxSysCommandError A)
      (f : A → Action (FxSystemCommand × W) FxSysCommandError FxSystemProcessRunning) (w : W)
      → ((a : A) (w' : W) → Started c (f a (c, w')))
      → Started c (continue r f (c, w))
  Started-continue (ok a) f w h = h a w
  Started-continue (err e) f w h = inl refl

  -- A step that looks at the host alone keeps the command.
  Started-step :
      {A : Type 0} (m : Action W FxSysCommandError A)
      (f : A → Action (FxSystemCommand × W) FxSysCommandError FxSystemProcessRunning) (w : W)
      → ((a : A) (w' : W) → Started c (f a (c, w')))
      → Started c ((on_world m >>= f) (c, w))
  Started-step m f w h = Started-continue (m w).0 f (m w).1 h

  -- Only input and output fail where a pid is written down.
  record_pid-IsIo : (f : Option FilePath) (pid : ℕ) (w : W) → IsIo (record_pid os f pid w).0
  unfolding record_pid
  record_pid-IsIo none pid w = tt
  record_pid-IsIo (some path) pid w = write_pid_file-IsIo os path pid w

  recorded :
      (h : FxSystemProcessRunning) (r : Result FxSysCommandError (Unit {0})) (w : W)
      → IsIo r
      → Started c (map_ok h r, (record c { state = running (get_pid h) }, w))
  recorded h (ok _) w i = refl
  recorded h (err e) w (x, i) = inr (inr (get_pid h, x, refl, i))

  spawned-Started :
      (f : Option FilePath) (child : ℕ) (pid : Option ℕ) (w : W)
      → Started c (spawned os f child pid (c, w))
  unfolding spawned
  spawned-Started f child none w = inr (inl (refl, refl))
  spawned-Started f child (some pid) w =
      recorded _ (record_pid os f pid w).0 _ (record_pid-IsIo f pid w)

  attach-Started : (f : Option FilePath) (pid : ℕ) (w : W) → Started c (attach os f pid (c, w))
  unfolding attach
  attach-Started f pid w =
      subst (Started c) (map_ok-continue _ _ _)
        (recorded (pid_only pid) (record_pid os f pid w).0 _ (record_pid-IsIo f pid w))

  spawn_command-Started :
      (f : Option FilePath) (cmd : Text) (args : List Text) (w : W)
      → Started c (spawn_command os c f cmd args (c, w))
  unfolding spawn_command
  spawn_command-Started f cmd args w =
      let look = λ (child : ℕ). on_world (look_at_child os child) >>= spawned os f child in
      Started-step (spawn_child os c cmd args) look w λ child w₁.
        Started-step (look_at_child os child) (spawned os f child) w₁ (spawned-Started f child)

  start_from-Started :
      (f : Option FilePath) (cmd : Text) (args : List Text) (s : FxExecutionState) (w : W)
      → Started c (start_from os c f cmd args s (c, w))
  unfolding start_from
  start_from-Started f cmd args (running pid) w = attach-Started f pid w
  start_from-Started f cmd args _ w = spawn_command-Started f cmd args w

  start_unless-Started :
      (f : Option FilePath) (cmd : Text) (args : List Text) (found : Option ℕ) (w : W)
      → Started c (start_unless os c f cmd args found (c, w))
  unfolding start_unless
  start_unless-Started f cmd args (some pid) w = refl
  start_unless-Started f cmd args none w =
      Started-step (current_state os c f cmd args) (start_from os c f cmd args) w
        (start_from-Started f cmd args)

  start-Started :
      (f : Option FilePath) (line : Text × List Text) (w : W) → Started c (start os c f line (c, w))
  unfolding start
  start-Started f (cmd, args) w =
      Started-step (reattach_pid os f cmd args) (start_unless os c f cmd args) w
        (start_unless-Started f cmd args)

module _ (U : UuidCrate) {W : Type 0} (os : Os W) where
  -- Whatever the host does, a start that returns a handle has recorded `Running` with the pid of
  -- that handle and a desired state of `Running`, and left every other setting alone. A start that
  -- fails has set the desired state, and the recorded state is as it was, or `Unknown` for a child
  -- that had no pid, or `Running` for a pid that could not be written to the pid file.
  pub fx_start-Started :
      (i : FxId U) (c : FxSystemCommand) (w : W)
      → Started
          (record c { desired_state = FxDesiredExecutionState.running })
          (fx_start os U i (c, w))
  unfolding fx_start
  fx_start-Started i c w =
      let c' = record c { desired_state = FxDesiredExecutionState.running } in
      start-Started os c' (pid_file_path U c' i) (launch_command_line c') w
