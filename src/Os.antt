-- ===== src/Os.antt =====
-- What the providers ask of the operating system, over an unknown state `W` of the host: files
-- through tokio, the process table through sysinfo, and child processes. Every call returns the
-- host's next state, in which other processes may have acted too.
pub mod Memory
pub mod Paths
use becky.Base.{
  ℕ, ◌+◌, Bool, true, false, Option, none, some, List, [], ◌∷◌, ◌++◌, Result, ok, err, Action,
}
use becky.Base.{◌==◌, nat_eq, list_eq, if◌then◌else◌}
use becky.Text.{Text}
use becky.State.{ExitStatus}

pub data ErrorKind : Type 0 where
  not_found invalid_input other : ErrorKind

-- `std::io::Error`, by its kind and its message.
pub record IoError : Type 0 where
  pub kind : ErrorKind
  pub message : Text

-- A path, by its components; the root directory is the component `/`.
abbrev pub FilePath : Type 0
FilePath = List Text

-- `Path::join` with a name that is one normal component.
abbrev pub join_name : FilePath → Text → FilePath
join_name dir name = dir ++ name ∷ []

-- `Path::parent`
abbrev pub parent : FilePath → Option FilePath
parent [] = none
parent (c ∷ []) = if c == (b'/' ∷ []) then none else some []
parent (c ∷ d ∷ p) = elim (parent (d ∷ p)) [ none ↦ some (c ∷ []) | some q ↦ some (c ∷ q) ]

-- An `OsString` that is UTF-8, or one that is not, with the text that `to_string_lossy` gives.
pub data OsString : Type 0 where
  utf8 : Text → OsString
  invalid : Text → OsString

abbrev pub to_string_lossy : OsString → Text
to_string_lossy (utf8 s) = s
to_string_lossy (invalid s) = s

-- `str == OsString`
abbrev pub eq_str : Text → OsString → Bool
eq_str s (utf8 t) = s == t
eq_str s (invalid t) = false

-- `sysinfo::DiskUsage`
pub record DiskUsage : Type 0 where
  pub total_written_bytes : ℕ
  pub written_bytes : ℕ
  pub total_read_bytes : ℕ
  pub read_bytes : ℕ

abbrev pub no_disk_usage : DiskUsage
no_disk_usage = record {
  total_written_bytes = 0;
  written_bytes = 0;
  total_read_bytes = 0;
  read_bytes = 0;
}

-- `sysinfo::Process`, as far as it is read.
pub record Process : Type 0 where
  pub pid : ℕ
  pub name : OsString
  pub cmd : List OsString
  pub accumulated_cpu_time : ℕ
  pub memory : ℕ
  pub virtual_memory : ℕ
  pub run_time : ℕ
  pub disk_usage : DiskUsage

-- `System::process`
abbrev pub process : List Process → ℕ → Option Process
process [] pid = none
process (p ∷ ps) pid = if p.pid == pid then some p else process ps pid

pub data Signal : Type 0 where
  term kill : Signal

-- A `tokio::process::Command` that is about to be spawned.
pub record Command : Type 0 where
  pub program : Text
  pub args : List Text
  pub env : List (Text × Text)
  pub stdout : Option ℕ
  pub stderr : Option ℕ

pub record Os (W : Type 0) : Type 0 where
  pub read_to_string : FilePath → Action W IoError Text
  pub write : FilePath → Text → Action W IoError (Unit {0})
  pub remove_file : FilePath → Action W IoError (Unit {0})
  pub create_dir_all : FilePath → Action W IoError (Unit {0})
  -- `File::create`, which returns an open file.
  pub create_file : FilePath → Action W IoError ℕ
  -- `System::new_all()`: the process table.
  pub new_all : W → List Process × W
  -- `Process::kill_with`; `none` is a signal that the platform lacks.
  pub kill_with : ℕ → Signal → W → Option Bool × W
  -- `libc::kill` of a process group, by what it returns.
  pub kill_group : ℕ → Signal → W → ℕ × W
  pub sleep : ℕ → W → W
  -- A spawned child, by a name that the runtime gives it.
  pub spawn : Command → Action W IoError ℕ
  pub child_id : ℕ → W → Option ℕ × W
  pub try_wait : ℕ → Action W IoError (Option ExitStatus)
  pub wait : ℕ → Action W IoError ExitStatus
  pub kill_child : ℕ → Action W IoError (Unit {0})
  -- The message of the `JoinError`, if the runtime lost a task that is awaited.
  pub join_error : W → Option Text × W
