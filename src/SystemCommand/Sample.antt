-- ===== src/SystemCommand/Sample.antt =====
-- A command and hosts in memory, on which the theorems are run.
use becky.Base.{ℕ, ◌≡◌, refl, List, [], ◌∷◌, some, true, ok, map}
use becky.Base.{list_eq, nat_eq}
use becky.Text.{Text, chars}
use becky.Text.Decimal.{parse_uint}
use becky.Text.Trim.{trim}
use becky.Id.{FxId, string, to_string}
use becky.Id.Sample.{sample}
use becky.State.{FxDesiredExecutionState}
use becky.Os.{no_disk_usage, FilePath, utf8, Process}
use becky.Os.Memory.{Host, memory_os}
use becky.SystemCommand.{FxSystemCommand, new, default_priority}
use becky.SystemCommand.Match.{command_equal}
use becky.SystemCommand.Launch.{launch_command_line}
use becky.SystemCommand.PidFile.{matches, pid_file_path, read_pid_file}

abbrev pub sleeper : FxSystemCommand
sleeper = record (new (chars "sleep") (chars "60" ∷ []) FxDesiredExecutionState.running) {
  pid_directory = some (chars "/" ∷ chars "run" ∷ []);
}

abbrev pub nice_sleeper : FxSystemCommand
nice_sleeper = record sleeper { nice_level = some default_priority }

abbrev pub job : FxId sample
job = string (chars "job")

abbrev pub job_path : FilePath
job_path = chars "/" ∷ chars "run" ∷ chars "fx-6a6f62.pid" ∷ []

abbrev pub process_at : ℕ → List Text → Process
process_at pid words = record {
  pid = pid;
  name = utf8 [];
  cmd = map utf8 words;
  accumulated_cpu_time = 0;
  memory = 0;
  virtual_memory = 0;
  run_time = 0;
  disk_usage = no_disk_usage;
}

abbrev pub empty_host : Host
empty_host = record { files = []; table = []; next = 100; cells = []; time = 0 }

-- The pid file of the job names the process that runs its command.
abbrev pub tracked : Host
tracked = record {
  files = (job_path, chars "42\n") ∷ [];
  table = process_at 42 (chars "sleep" ∷ chars "60" ∷ []) ∷ [];
  next = 100;
  cells = [];
  time = 0;
}

-- The process that the pid file names shows the launch line with `nice`.
abbrev pub tracked_nice : Host
tracked_nice = record tracked {
  table = process_at 42 (map chars ("nice" ∷ "-n" ∷ "0" ∷ "sleep" ∷ "60" ∷ [])) ∷ [];
}

pub path_of_job : pid_file_path sample sleeper job ≡ some job_path
unfolding pid_file_path to_string
path_of_job = refl

pub file_of_job : (read_pid_file memory_os job_path tracked).0 ≡ ok (some 42)
unfolding read_pid_file memory_os parse_uint trim
file_of_job = refl

pub process_of_job :
    matches
      (memory_os.new_all (read_pid_file memory_os job_path tracked).1).0
      42
      (launch_command_line sleeper).0
      (launch_command_line sleeper).1
    ≡ true
unfolding read_pid_file memory_os launch_command_line command_equal
process_of_job = refl
