-- ===== src/SystemCommand/Launch/Wrapped.antt =====
-- What `nice` and `taskset` in front of a command mean for recognising its process.
use becky.Base.{◌<◌, ◌≡◌, ◌≢◌, ◌⊎◌, arith, List, none, true, false, length}
use becky.Os.{OsString}
use becky.SystemCommand.{FxSystemCommand}
use becky.SystemCommand.Match.{command_equal}
use becky.SystemCommand.Match.Exact.{command_equal_lengths}
use becky.SystemCommand.Launch.{launch_command_line}

-- A priority or a CPU affinity is set.
abbrev pub IsWrapped : FxSystemCommand → Type 0
IsWrapped c = (c.nice_level ≢ none) ⊎ (c.pin_to_cpus ≢ none)

launch-longer :
    (c : FxSystemCommand) → IsWrapped c → length c.args < length (launch_command_line c).1
unfolding launch_command_line
launch-longer c h = ground arith

-- The line that a wrapped command is launched by and the line of the command itself are never
-- both the command line of one process.
pub launch-exclusive :
    (c : FxSystemCommand) (os : List OsString)
    → IsWrapped c
    → let (cmd, args) = launch_command_line c in
      command_equal cmd args os ≡ true → command_equal c.command c.args os ≡ false
launch-exclusive c os h m =
    command_equal_lengths _ c.command _ c.args os (let longer = launch-longer c h in omega arith) m
