-- ===== src/RustFn/PidFile.antt =====
-- The pid files of workers.
pub mod Names
use becky.Base.{ℕ, List, [], ◌∷◌, ◌++◌, Option, none, some, Bool, map, ◌==◌, nat_eq, ◌||◌}
use becky.Base.{Result, ok, err, Action, ◌>>=◌, ◌>>◌, catch, if◌then◌else◌}
use becky.Text.{Text, chars, is_ascii_alphanumeric}
use becky.Text.Decimal.{decimal, parse_uint}
use becky.Text.Trim.{trim}
use becky.Os.{IoError, FilePath, join_name, Os}
use becky.SystemCommand.PidFile.{max_u32, is_not_found}
use becky.RustFn.{FxRustFn, RustFnError, io, invalid_pid_file}

unfoldable pub sanitize_char : ℕ → ℕ
unfolding nat_eq
sanitize_char c = if is_ascii_alphanumeric c || c == b'-' || c == b'_' then c else b'_'

unfoldable pub sanitize_pid_name : Text → Text
unfolding sanitize_char
sanitize_pid_name name = map sanitize_char name

unfoldable pub pid_file_path : FilePath → Text → FilePath
unfolding sanitize_pid_name
pid_file_path run_dir function = join_name run_dir (sanitize_pid_name function ++ chars ".pid")

-- `FxRustFn::pid_file`
unfoldable pub pid_file : FxRustFn → FilePath
unfolding sanitize_pid_name
pid_file c = join_name c.run_dir (sanitize_pid_name c.function ++ chars ".pid")

parsed : FilePath → Option ℕ → Result RustFnError (Option ℕ)
parsed path none = err (invalid_pid_file path)
parsed path (some pid) = ok (some pid)

read_result : FilePath → Result IoError Text → Result RustFnError (Option ℕ)
unfolding parsed
read_result path (ok contents) = parsed path (parse_uint max_u32 (trim contents))
read_result path (err e) = if is_not_found e.kind then ok none else err (io e)

remove_result : Result IoError (Unit {0}) → Result RustFnError (Unit {0})
remove_result (ok _) = ok tt
remove_result (err e) = if is_not_found e.kind then ok tt else err (io e)

module _ {W : Type 0} (os : Os W) (c : FxRustFn) where
  unfoldable pub read_pid_file : Action W RustFnError (Option ℕ)
  unfolding read_result
  read_pid_file w =
      let (r, w') = os.read_to_string (pid_file c) w in (read_result (pid_file c) r, w')

  unfoldable pub write_pid_file : ℕ → Action W RustFnError (Unit {0})
  write_pid_file pid = do
    catch io (os.create_dir_all c.run_dir)
    catch io (os.write (pid_file c) (decimal pid))

  unfoldable pub remove_pid_file : Action W RustFnError (Unit {0})
  unfolding remove_result
  remove_pid_file w = let (r, w') = os.remove_file (pid_file c) w in (remove_result r, w')
