-- ===== src/SystemCommand/Launch.antt =====
-- `launch_command_line`: the command behind `nice` and, on Linux, `taskset`.
pub mod Wrapped
use becky.Base.{ℕ, List, [], ◌∷◌, ◌++◌, Option, none, some, map}
use becky.Text.{Text, chars, join}
use becky.Text.Decimal.{decimal}
use becky.SystemCommand.{FxSystemCommand, NiceLevel, nice_to_string}

with_nice : Option NiceLevel → Text → List Text → Text × List Text
with_nice none command args = (command, args)
with_nice (some level) command args =
    (chars "nice", chars "-n" ∷ nice_to_string level ∷ command ∷ args)

with_taskset : Option (List ℕ) → Text × List Text → Text × List Text
with_taskset none (cmd, args) = (cmd, args)
with_taskset (some cpus) (cmd, args) =
    (chars "taskset", chars "-c" ∷ join (chars ",") (map decimal cpus) ∷ cmd ∷ args)

unfoldable pub launch_command_line : FxSystemCommand → Text × List Text
unfolding with_nice with_taskset nice_to_string join decimal
launch_command_line c = with_taskset c.pin_to_cpus (with_nice c.nice_level c.command c.args)
