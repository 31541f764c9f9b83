-- ===== src/Qemu/Paths.antt =====
-- becky-fx-qemu/src/instance.rs: the files of a machine below its root.
use becky.Base.{[], ◌∷◌, ◌++◌}
use becky.Text.{Text, chars}
use becky.Id.{UuidCrate, FxId, to_string}
use becky.Os.{FilePath}
use becky.Os.Paths.{push}

module _ (U : UuidCrate) (root : FilePath) (fx_id : FxId U) where
  -- A file of one of the machine's directories.
  abbrev pub below : Text → Text → FilePath
  unfolding to_string push
  below dir name = push root (to_string U fx_id) ++ dir ∷ name ∷ []

  abbrev pub run_path : Text → FilePath
  run_path name = below (chars "run") name

  abbrev pub log_path : Text → FilePath
  log_path name = below (chars "log") name

  abbrev pub pid_path_s : FilePath
  pid_path_s = run_path (chars "qemu.pid")

  abbrev pub ctl_socket_path_s : FilePath
  ctl_socket_path_s = run_path (chars "ctl.sock")

  abbrev pub ctl_socket_log_path_s : FilePath
  ctl_socket_log_path_s = log_path (chars "ctl.log")

  abbrev pub ctl_debug_socket_path_s : FilePath
  ctl_debug_socket_path_s = run_path (chars "ctl_debug.sock")

  abbrev pub ctl_debug_socket_log_path_s : FilePath
  ctl_debug_socket_log_path_s = log_path (chars "ctl_debug.log")

  abbrev pub ctl_readline_socket_path_s : FilePath
  ctl_readline_socket_path_s = run_path (chars "ctl_readline.sock")

  abbrev pub ctl_readline_socket_log_path_s : FilePath
  ctl_readline_socket_log_path_s = log_path (chars "ctl_readline.log")

  abbrev pub ga_socket_path_s : FilePath
  ga_socket_path_s = run_path (chars "ga.sock")

  abbrev pub ga_socket_log_path_s : FilePath
  ga_socket_log_path_s = log_path (chars "guest_agent.log")

  abbrev pub vm_path : FilePath
  unfolding to_string push
  vm_path = push root (to_string U fx_id)

  abbrev pub vm_dir : Text → FilePath
  unfolding to_string push
  vm_dir name = push root (to_string U fx_id) ++ name ∷ []

  abbrev pub archive_root_path : FilePath
  archive_root_path = vm_dir (chars "archive")
