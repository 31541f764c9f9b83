-- ===== src/RustFn/Sample.antt =====
-- A worker and hosts in memory, on which the theorems are run.
use becky.Base.{[], ◌∷◌, some, true, map, length}
use becky.Text.{chars}
use becky.Os.{FilePath, Process}
use becky.Os.Memory.{Host}
use becky.Runtime.{Runtime}
use becky.Runtime.Memory.{memory_runtime}
use becky.SystemCommand.Sample.{process_at, empty_host}
use becky.RustFn.{FxRustFn, new, RustFnHandle, failure, Monitor}
use becky.RustFn.Registry.{RustFn}

abbrev pub runtime : Runtime Host Monitor
unfolding memory_runtime
runtime = memory_runtime Monitor

abbrev pub worker : FxRustFn
worker = record (new (chars "sync/all") (chars "/" ∷ chars "run" ∷ [])) { args = chars "fast" ∷ [] }

abbrev pub worker_path : FilePath
worker_path = chars "/" ∷ chars "run" ∷ chars "sync_all.pid" ∷ []

abbrev pub worker_process : Process
worker_process = process_at 42 (map chars ("app" ∷ "--becky-rust-fn" ∷ "sync/all" ∷ "fast" ∷ []))

abbrev pub other_process : Process
other_process = process_at 42 (chars "vi" ∷ [])

abbrev pub with_pid_file : Process → Host
with_pid_file p = record empty_host { files = (worker_path, chars "42") ∷ []; table = p ∷ [] }

abbrev pub handle : RustFnHandle
handle = record {
  pid = 42;
  function = worker.function;
  reattached = true;
  worker_arg = worker.worker_arg;
  latest_state = 7;
  monitor = some 8;
}

-- It exits with the number of its arguments.
abbrev pub count_args : RustFn Host
count_args context w = (failure (length context.args), w)
