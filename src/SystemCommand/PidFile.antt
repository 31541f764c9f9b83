-- ===== src/SystemCommand/PidFile.antt =====
-- Pid files: their names, and reading, writing, removing and trusting them.
pub mod Names
pub mod Trust
use becky.Base.{
  ℕ, ◌+◌, ◌-◌, ◌/◌, ◌%◌, ◌^◌, List, [], ◌∷◌, ◌++◌, Option, none, some, Bool, true, false,
}
use becky.Base.{Result, ok, err, Action, pure, ◌>>=◌, ◌>>◌, catch, if◌then◌else◌, ltb}
use becky.Text.{Text, chars}
use becky.Text.Decimal.{decimal, parse_uint}
use becky.Text.Trim.{trim}
use becky.Text.Utf8.{as_bytes}
use becky.Id.{UuidCrate, FxId, to_string}
use becky.Os.{IoError, ErrorKind, not_found, FilePath, join_name, parent, Process, process, Os}
use becky.SystemCommand.{FxSystemCommand, FxSysCommandError, io}
use becky.SystemCommand.Match.{command_equal}

abbrev pub max_u32 : ℕ
max_u32 = 2 ^ 32 - 1

-- A digit of `{:02x}`.
hex_digit : ℕ → ℕ
hex_digit d = if ltb d 10 then b'0' + d else b'a' + (d - 10)

hex_bytes : List ℕ → Text
unfolding hex_digit
hex_bytes [] = []
hex_bytes (b ∷ bs) = hex_digit (b / 16) ∷ hex_digit (b % 16) ∷ hex_bytes bs

unfoldable pub pid_file_stem : Text → Text
unfolding hex_bytes as_bytes
pid_file_stem id = chars "fx-" ++ hex_bytes (as_bytes id)

pub pid_file_name : Text → Text
pid_file_name id = pid_file_stem id ++ chars ".pid"

pid_file_in : Option FilePath → Text → Option FilePath
pid_file_in none id = none
pid_file_in (some dir) id = some (join_name dir (pid_file_name id))

unfoldable pub pid_file_path : (U : UuidCrate) → FxSystemCommand → FxId U → Option FilePath
unfolding pid_file_in pid_file_name pid_file_stem
pid_file_path U command fx_id = pid_file_in command.pid_directory (to_string U fx_id)

abbrev pub is_not_found : ErrorKind → Bool
is_not_found ErrorKind.not_found = true
is_not_found _ = false

read_result : Result IoError Text → Result FxSysCommandError (Option ℕ)
read_result (ok contents) = ok (parse_uint max_u32 (trim contents))
read_result (err e) = if is_not_found e.kind then ok none else err (io e)

remove_result : Result IoError (Unit {0}) → Result FxSysCommandError (Unit {0})
remove_result (ok _) = ok tt
remove_result (err e) = if is_not_found e.kind then ok tt else err (io e)

abbrev pub matches : List Process → ℕ → Text → List Text → Bool
matches table pid cmd args = elim (process table pid) [
  | some p ↦ command_equal cmd args p.cmd
  | none ↦ false
]

module _ {W : Type 0} (os : Os W) where
  unfoldable pub read_pid_file : FilePath → Action W FxSysCommandError (Option ℕ)
  unfolding read_result
  read_pid_file path w = let (r, w') = os.read_to_string path w in (read_result r, w')

  create_parent : Option FilePath → Action W FxSysCommandError (Unit {0})
  create_parent none = pure tt
  create_parent (some dir) = catch io (os.create_dir_all dir)

  unfoldable pub write_pid_file : FilePath → ℕ → Action W FxSysCommandError (Unit {0})
  unfolding create_parent
  write_pid_file path pid = do
    create_parent (parent path)
    catch io (os.write path (decimal pid ++ chars "\n"))

  unfoldable pub remove_pid_file : FilePath → Action W FxSysCommandError (Unit {0})
  unfolding remove_result
  remove_pid_file path w = let (r, w') = os.remove_file path w in (remove_result r, w')

  unfoldable pub pid_matches_command : ℕ → Text → List Text → Action W FxSysCommandError Bool
  pid_matches_command pid cmd args w =
      let (table, w') = os.new_all w in (ok (matches table pid cmd args), w')

  trust : FilePath → ℕ → Bool → Action W FxSysCommandError (Option ℕ)
  trust path pid true = pure (some pid)
  trust path pid false = do remove_pid_file path; pure none

  check_pid : FilePath → Text → List Text → Option ℕ → Action W FxSysCommandError (Option ℕ)
  check_pid path cmd args none = pure none
  check_pid path cmd args (some pid) = do
    same ← pid_matches_command pid cmd args
    trust path pid same

  unfoldable pub running_pid_from_pid_file :
      FilePath → Text → List Text → Action W FxSysCommandError (Option ℕ)
  unfolding check_pid trust read_pid_file remove_pid_file pid_matches_command
  running_pid_from_pid_file path cmd args = do
    found ← read_pid_file path
    check_pid path cmd args found
