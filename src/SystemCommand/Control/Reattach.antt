-- ===== src/SystemCommand/Control/Reattach.antt =====
-- When a start finds its process again, and what priorities and affinities do to that.
use becky.Base.{
  ℕ, ◌≡◌, ap, ◌∙◌, Bool-cases, Option-cases, inl, inr, arith, List, none, some, true, false,
}
use becky.Base.{ok}
use becky.Text.{Text}
use becky.Id.{UuidCrate, FxId}
use becky.State.{running, unknown, not_started, FxDesiredExecutionState}
use becky.Os.{Os, FilePath, Process, process}
use becky.SystemCommand.{FxSystemCommand, pid_only}
use becky.SystemCommand.Match.{command_equal}
use becky.SystemCommand.Launch.{launch_command_line}
use becky.SystemCommand.Launch.Wrapped.{IsWrapped, launch-exclusive}
use becky.SystemCommand.PidFile.{
  matches, pid_file_path, read_pid_file, remove_pid_file, running_pid_from_pid_file,
  pid_matches_command,
}
use becky.SystemCommand.PidFile.Trust.{running_pid_keeps, running_pid_stale}
use becky.SystemCommand.Control.{fx_start, fx_status, start, spawn_command}

-- The command that a start goes on with.
abbrev pub wanted : FxSystemCommand → FxSystemCommand
wanted c = record c { desired_state = FxDesiredExecutionState.running }

module _ {W : Type 0} (os : Os W) (c : FxSystemCommand) (path : FilePath) (cmd : Text)
    (args : List Text) where
  start_attaches :
      (pid : ℕ) (w w' : W)
      → running_pid_from_pid_file os path cmd args w ≡ (ok (some pid), w')
      → start os c (some path) (cmd, args) (c, w)
        ≡ (ok (pid_only pid), (record c { state = running pid }, w'))
  unfolding start
  start_attaches pid w w' h = ground arith

  start_spawns :
      (w w' : W)
      → running_pid_from_pid_file os path cmd args w ≡ (ok none, w')
      → c.state ≡ not_started
      → start os c (some path) (cmd, args) (c, w) ≡ spawn_command os c (some path) cmd args (c, w')
  unfolding start
  start_spawns w w' h e = ground arith

module _ (U : UuidCrate) {W : Type 0} (os : Os W) (i : FxId U) (c : FxSystemCommand) where
  fx_start-start :
      (path : FilePath) (w : W)
      → pid_file_path U c i ≡ some path
      → fx_start os U i (c, w)
        ≡ start os (wanted c) (some path) (launch_command_line c) (wanted c, w)
  unfolding fx_start launch_command_line pid_file_path
  fx_start-start path w e = ap (λ f. start os (wanted c) f (launch_command_line c) (wanted c, w)) e

  -- A start that finds its own process through the pid file attaches to it: it reads the file, looks
  -- at the process table, and asks nothing else of the host, so nothing is spawned.
  pub fx_start_attaches :
      (path : FilePath) (pid : ℕ) (w : W)
      → let (cmd, args) = launch_command_line c in
        let (found, w₁) = read_pid_file os path w in
        let (table, w₂) = os.new_all w₁ in
        pid_file_path U c i ≡ some path
        → found ≡ ok (some pid)
        → matches table pid cmd args ≡ true
        → fx_start os U i (c, w)
          ≡ (ok (pid_only pid), (record (wanted c) { state = running pid }, w₂))
  fx_start_attaches path pid w e f m =
      fx_start-start path w e
      ∙ start_attaches os (wanted c) path _ _ pid w _ (running_pid_keeps os path _ _ pid w f m)

  -- With a priority or an affinity set, a process that shows the command without `nice` and
  -- `taskset` is not found again: a new controller removes the pid file that names it and spawns
  -- the command a second time.
  pub fx_start_of_wrapped :
      (path : FilePath) (pid : ℕ) (p : Process) (w : W)
      → let (cmd, args) = launch_command_line c in
        let (found, w₁) = read_pid_file os path w in
        let (table, w₂) = os.new_all w₁ in
        let (removed, w₃) = remove_pid_file os path w₂ in
        IsWrapped c
        → pid_file_path U c i ≡ some path
        → c.state ≡ not_started
        → found ≡ ok (some pid)
        → process table pid ≡ some p
        → command_equal c.command c.args p.cmd ≡ true
        → removed ≡ ok tt
        → fx_start os U i (c, w) ≡ spawn_command os (wanted c) (some path) cmd args (wanted c, w₃)
  fx_start_of_wrapped path pid p w wrapped e fresh f shown same gone =
      fx_start-start path w e ∙ start_spawns os (wanted c) path _ _ w _ none_found fresh
    where
      unmatched : command_equal (launch_command_line c).0 (launch_command_line c).1 p.cmd ≡ false
      unmatched =
          elim (Bool-cases
            (command_equal (launch_command_line c).0 (launch_command_line c).1 p.cmd)) [
              | inl m ↦ absurd (cc (launch-exclusive c p.cmd wrapped m))
              | inr m ↦ m
            ]

      none_found :
          let (found, w₁) = read_pid_file os path w in
          let (table, w₂) = os.new_all w₁ in
          running_pid_from_pid_file os path (launch_command_line c).0 (launch_command_line c).1 w
          ≡ (ok none, (remove_pid_file os path w₂).1)
      none_found =
          running_pid_stale os path _ _ pid w f (rw (shown, matches) unmatched) ∙ (ground arith)

-- `fx_start` recognises a process by the line that it launches, and `fx_status` by the command
-- without `nice` and `taskset`: with either set, a pid that the first accepts is `Unknown` to the
-- second, in the same process table.
pub fx_status_of_wrapped :
    {W : Type 0} (os : Os W) (c : FxSystemCommand) (pid : ℕ) (w : W)
    → IsWrapped c
    → let (cmd, args) = launch_command_line c in
      (pid_matches_command os pid cmd args w).0 ≡ ok true
      → (fx_status os c (pid_only pid) w).0 ≡ ok unknown
unfolding fx_status pid_matches_command
fx_status_of_wrapped os c pid w h m = elim (Option-cases (process (os.new_all w).0 pid)) [
  | inl e ↦ ground arith
  | inr (p, e) ↦ ground (arith, launch-exclusive c p.cmd h)
]
