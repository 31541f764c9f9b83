-- ===== src/RustFn/PidFile/Names.antt =====
-- The names of the workers' pid files, and reading back what was written.
use becky.Base.{ℕ, ◌≤◌, ◌≡◌, refl, arith, [], ◌∷◌, some, ok, nat_eq}
use becky.Base.{All, length}
use becky.Text.{Text}
use becky.Text.Decimal.{decimal}
use becky.Text.Decimal.RoundTrip.{decimal-IsDigits, parse_uint-decimal}
use becky.Text.Trim.{trim-ink}
use becky.Os.{Os}
use becky.SystemCommand.PidFile.{max_u32}
use becky.SystemCommand.PidFile.Names.{IsSafe}
use becky.SystemCommand.PidFile.Trust.{KeepsFiles, digits-IsInk}
use becky.RustFn.{FxRustFn}
use becky.RustFn.PidFile.{sanitize_char, sanitize_pid_name, pid_file, read_pid_file, write_pid_file}

sanitize_char-IsSafe : (c : ℕ) → IsSafe (sanitize_char c)
unfolding sanitize_char
sanitize_char-IsSafe c = ground arith

pub sanitize_each-IsSafe : (name : Text) → All IsSafe (sanitize_pid_name name)
unfolding sanitize_pid_name
sanitize_each-IsSafe [] = tt
sanitize_each-IsSafe (c ∷ name) = (sanitize_char-IsSafe c, sanitize_each-IsSafe name)

sanitize_char-sanitize_char : (c : ℕ) → sanitize_char (sanitize_char c) ≡ sanitize_char c
unfolding sanitize_char
sanitize_char-sanitize_char c = ground arith

sanitize_twice : (name : Text) → sanitize_pid_name (sanitize_pid_name name) ≡ sanitize_pid_name name
unfolding sanitize_pid_name
sanitize_twice [] = refl
sanitize_twice (c ∷ name) = rw (sanitize_char-sanitize_char c, sanitize_twice name) refl

sanitized_length : (name : Text) → length (sanitize_pid_name name) ≡ length name
unfolding sanitize_pid_name
sanitized_length [] = refl
sanitized_length (c ∷ name) = omega (arith, sanitized_length name)

-- A sanitized name is ASCII with no slash and no NUL, as long as the name, and is itself left as it
-- is.
pub sanitize_pid_name-IsSafe :
    (name : Text)
    → All IsSafe (sanitize_pid_name name)
      × (length (sanitize_pid_name name) ≡ length name)
      × (sanitize_pid_name (sanitize_pid_name name) ≡ sanitize_pid_name name)
sanitize_pid_name-IsSafe name =
    (sanitize_each-IsSafe name, sanitized_length name, sanitize_twice name)

module _ {W : Type 0} (os : Os W) (L : KeepsFiles os) (c : FxRustFn) where
  -- After a worker's pid was written with no error, its pid file reads as that pid.
  pub rust_fn_read-write :
      (pid : ℕ) (w w' : W)
      → pid ≤ max_u32
      → write_pid_file os c pid w ≡ (ok tt, w')
      → (read_pid_file os c w').0 ≡ ok (some pid)
  unfolding write_pid_file read_pid_file
  rust_fn_read-write pid w w' le h = ground (
    arith,
    L.read-write (pid_file c) (decimal pid) (os.create_dir_all c.run_dir w).1 w',
    trim-ink (decimal pid) (digits-IsInk _ (decimal-IsDigits pid)),
    parse_uint-decimal max_u32 pid le,
  )
