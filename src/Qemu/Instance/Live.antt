-- ===== src/Qemu/Instance/Live.antt =====
-- The pid files of machines, and what is removed with them.
use becky.Base.{ℕ, ◌≡◌, ◌≢◌, ◌↔◌, none, some, inl, inr, ok, Option-cases, Result-cases, arith, List}
use becky.Text.{Text}
use becky.Text.Decimal.{parse_uint}
use becky.Text.Trim.{trim}
use becky.Os.{FilePath, Process, process, Os}
use becky.SystemCommand.PidFile.{max_u32}
use becky.Qemu.Instance.{live_pid_from_pidfile, live_pid, live_in}

module _ {W : Type 0} (os : Os W) where
  -- What a live pid stands on.
  abbrev pub IsLive : FilePath → W → ℕ → Type 0
  IsLive pidfile w pid =
      (text : Text) × ((os.read_to_string pidfile w).0 ≡ ok text)
      × (parse_uint max_u32 (trim text) ≡ some pid)
      × (process (os.new_all (os.read_to_string pidfile w).1).0 pid ≢ none)

  live_in-some :
      (table : List Process) (pid found : ℕ)
      → live_in os table (some pid) ≡ some found
      → (pid ≡ found) × (process table pid ≢ none)
  unfolding live_in
  live_in-some table pid found h = elim (Option-cases (process table pid)) [
    | inl gone ↦ absurd (ground arith)
    | inr (p, alive) ↦ (ground arith, λ gone. ground arith)
  ]

  in_live :
      (table : List Process) (pid : ℕ)
      → process table pid ≢ none
      → live_in os table (some pid) ≡ some pid
  unfolding live_in
  in_live table pid alive = elim (Option-cases (process table pid)) [
    | inl gone ↦ absurd (alive gone)
    | inr (p, found) ↦ ground arith
  ]

  IsLive-of :
      (pidfile : FilePath) (w : W) (pid : ℕ)
      → (live_pid_from_pidfile os pidfile w).0 ≡ some pid
      → IsLive pidfile w pid
  unfolding live_pid_from_pidfile live_pid
  IsLive-of pidfile w pid h = elim (Result-cases (os.read_to_string pidfile w).0) [
    | inr (x, failed) ↦ absurd (ground arith)
    | inl (text, read) ↦ elim (Option-cases (parse_uint max_u32 (trim text))) [
      | inl unread ↦ absurd (ground arith)
      | inr (found, parsed) ↦
          let table = (os.new_all (os.read_to_string pidfile w).1).0 in
          let (same, alive) = live_in-some table found pid (ground arith) in
          (text, read, ground arith, λ gone. alive (ground arith))
    ]
  ]

  of_live :
      (pidfile : FilePath) (w : W) (pid : ℕ)
      → IsLive pidfile w pid
      → (live_pid_from_pidfile os pidfile w).0 ≡ some pid
  unfolding live_pid_from_pidfile live_pid
  of_live pidfile w pid (text, read, parsed, alive) =
      rw (read, live_pid_from_pidfile, parsed, live_pid)
        (in_live (os.new_all (os.read_to_string pidfile w).1).0 pid alive)

  -- A pid is taken from a pid file just if the file can be read, its trimmed text is a number below
  -- 2^32, and a process has that pid.
  pub live_pid_from_pidfile_iff :
      (pidfile : FilePath) (w : W) (pid : ℕ)
      → ((live_pid_from_pidfile os pidfile w).0 ≡ some pid) ↔ IsLive pidfile w pid
  live_pid_from_pidfile_iff pidfile w pid = (IsLive-of pidfile w pid, of_live pidfile w pid)
