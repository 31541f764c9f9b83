-- ===== src/SystemCommand/PidFile/Trust.antt =====
-- Reading back a pid file, and when the pid in one is trusted.
use becky.Base.{ℕ, ◌≤◌, ◌≡◌, ◌↔◌, refl, arith, List, [], ◌∷◌, ◌++◌, Option, none, some, true, false}
use becky.Base.{Result, ok, err, Action, map_ok, map_err, continue, All}
use becky.Text.{Text, chars}
use becky.Text.Decimal.{decimal, parse_uint, IsDigit}
use becky.Text.Decimal.RoundTrip.{decimal-IsDigits, parse_uint-decimal}
use becky.Text.Trim.{trim, trim-append, IsInk}
use becky.Os.{IoError, FilePath, parent, Os}
use becky.SystemCommand.{FxSysCommandError, io}
use becky.SystemCommand.PidFile.{
  max_u32, matches, read_pid_file, write_pid_file, create_parent, remove_pid_file,
  running_pid_from_pid_file,
}

-- A file that was written holds what was written, until the next call.
pub record KeepsFiles {W : Type 0} (os : Os W) : Type 0 where
  pub read-write :
      (path : FilePath) (text : Text) (w w' : W)
      → os.write path text w ≡ (ok tt, w')
      → (os.read_to_string path w').0 ≡ ok text

pub digits-IsInk : (s : Text) → All IsDigit s → All IsInk s
digits-IsInk [] h = tt
digits-IsInk (c ∷ s) (hc, hs) = (ground arith, digits-IsInk s hs)

-- What is written for a pid is read as that pid.
pub parse-line :
    (pid : ℕ) → pid ≤ max_u32 → parse_uint max_u32 (trim (decimal pid ++ chars "\n")) ≡ some pid
parse-line pid h =
    rw (trim-append (decimal pid) b'\n' (digits-IsInk _ (decimal-IsDigits pid)) refl)
      (parse_uint-decimal max_u32 pid h)

module _ {W : Type 0} (os : Os W) (L : KeepsFiles os) where
  -- If a file that was written without an error reads as what was written, then after a pid was
  -- written without an error the pid file reads as that pid.
  pub read_pid_file-write :
      (path : FilePath) (pid : ℕ) (w w' : W)
      → pid ≤ max_u32
      → write_pid_file os path pid w ≡ (ok tt, w')
      → (read_pid_file os path w').0 ≡ ok (some pid)
  unfolding write_pid_file read_pid_file
  read_pid_file-write path pid w w' le h = ground (
    arith,
    L.read-write path (decimal pid ++ chars "\n") (create_parent os (parent path) w).1 w',
    parse-line pid le,
  )

module _ {W : Type 0} (os : Os W) (path : FilePath) (cmd : Text) (args : List Text) where
  -- A pid comes out of the file exactly when the file reads as that pid and the process table then
  -- shows the command line at it.
  pub running_pid_iff :
      (pid : ℕ) (w : W)
      → let (found, w₁) = read_pid_file os path w in
        let (table, w₂) = os.new_all w₁ in
        ((running_pid_from_pid_file os path cmd args w).0 ≡ ok (some pid))
        ↔ ((found ≡ ok (some pid)) × (matches table pid cmd args ≡ true))
  unfolding running_pid_from_pid_file
  running_pid_iff pid w = (λ h. ground arith, λ (h, m). ground arith)

  -- Nothing else is asked of the host for a pid that is trusted, so the file stays.
  pub running_pid_keeps :
      (pid : ℕ) (w : W)
      → let (found, w₁) = read_pid_file os path w in
        let (table, w₂) = os.new_all w₁ in
        found ≡ ok (some pid)
        → matches table pid cmd args ≡ true
        → running_pid_from_pid_file os path cmd args w ≡ (ok (some pid), w₂)
  unfolding running_pid_from_pid_file
  running_pid_keeps pid w h m = ground arith

  -- A file that names another process is removed, and no pid comes out of it.
  pub running_pid_stale :
      (pid : ℕ) (w : W)
      → let (found, w₁) = read_pid_file os path w in
        let (table, w₂) = os.new_all w₁ in
        let (removed, w₃) = remove_pid_file os path w₂ in
        found ≡ ok (some pid)
        → matches table pid cmd args ≡ false
        → running_pid_from_pid_file os path cmd args w ≡ (map_ok none removed, w₃)
  unfolding running_pid_from_pid_file
  running_pid_stale pid w h m = ground arith

-- A failure, if it is one, is an I/O error.
abbrev pub IsIo : Result FxSysCommandError (Unit {0}) → Type 0
IsIo (ok _) = Unit
IsIo (err e) = (x : IoError) × (e ≡ io x)

IsIo-map_err : (r : Result IoError (Unit {0})) → IsIo (map_err io r)
IsIo-map_err (ok _) = tt
IsIo-map_err (err x) = (x, refl)

module _ {W : Type 0} (os : Os W) where
  IsIo-continue :
      (r : Result FxSysCommandError (Unit {0}))
      (f : Unit {0} → Action W FxSysCommandError (Unit {0})) (w : W)
      → IsIo r
      → ((w' : W) → IsIo (f tt w').0)
      → IsIo (continue r f w).0
  IsIo-continue (ok _) f w h k = k w
  IsIo-continue (err e) f w h k = h

  create_parent-IsIo : (p : Option FilePath) (w : W) → IsIo (create_parent os p w).0
  unfolding create_parent
  create_parent-IsIo none w = tt
  create_parent-IsIo (some dir) w = IsIo-map_err _

  pub write_pid_file-IsIo :
      (path : FilePath) (pid : ℕ) (w : W) → IsIo (write_pid_file os path pid w).0
  unfolding write_pid_file
  write_pid_file-IsIo path pid w =
      IsIo-continue (create_parent os (parent path) w).0 _ _ (create_parent-IsIo (parent path) w)
        (λ w'. IsIo-map_err _)
