-- ===== src/RustFn/Worker.antt =====
-- A worker's command line, and how a process is recognised as a worker.
pub mod Found
use becky.Base.{ℕ, List, [], ◌∷◌, Option, none, some, Bool, true, false, ◌&&◌, ◌||◌, list_eq}
use becky.Base.{if◌then◌else◌}
use becky.Text.{Text}
use becky.Os.{OsString, eq_str, Process, process, Os}
use becky.RustFn.{FxRustFn, ObservedProcess, matching, mismatched, missing}

-- `FxRustFn::worker_args`
unfoldable pub worker_args : FxRustFn → List Text
worker_args c = c.worker_arg ∷ c.function ∷ c.args

-- `cmd.windows(2).any(...)`
unfoldable pub process_cmd_contains_worker : List OsString → Text → Text → Bool
unfolding list_eq
process_cmd_contains_worker [] worker_arg function = false
process_cmd_contains_worker (a ∷ []) worker_arg function = false
process_cmd_contains_worker (a ∷ b ∷ cmd) worker_arg function =
    (eq_str worker_arg a && eq_str function b)
    || process_cmd_contains_worker (b ∷ cmd) worker_arg function

unfoldable pub observed : Option Process → Text → Text → ObservedProcess
unfolding process_cmd_contains_worker
observed none worker_arg function = missing
observed (some p) worker_arg function =
    if process_cmd_contains_worker p.cmd worker_arg function then matching else mismatched

unfoldable pub observe_worker_process :
    {W : Type 0} → Os W → ℕ → Text → Text → W → ObservedProcess × W
unfolding observed
observe_worker_process os pid worker_arg function w =
    let (table, w') = os.new_all w in (observed (process table pid) worker_arg function, w')
