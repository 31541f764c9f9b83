-- ===== src/SystemCommand/Examples.antt =====
-- Runs of starts, stops and status on a host in memory, and the theorems at concrete data.
use becky.Base.{◌≡◌, refl, ◌↔◌, ◌⊎◌, [], ◌∷◌, none, some, true, ok, err, map}
use becky.Base.{inl, list_eq, nat_eq}
use becky.Text.{chars}
use becky.Id.{to_string}
use becky.Id.Sample.{sample}
use becky.State.{running, unknown}
use becky.Os.{utf8, process, kill}
use becky.Os.Memory.{memory_os}
use becky.SystemCommand.{process_not_running, process_did_not_exit, pid_only, tokio}
use becky.SystemCommand.Match.{command_equal}
use becky.SystemCommand.Launch.{launch_command_line}
use becky.SystemCommand.Launch.Wrapped.{IsWrapped}
use becky.SystemCommand.PidFile.{
  pid_file_path, read_pid_file, write_pid_file, remove_pid_file, pid_matches_command,
  running_pid_from_pid_file,
}
use becky.SystemCommand.Signals.{wait_for_pid_exit, signal_process, stop, destroy}
use becky.SystemCommand.Signals.Exit.{
  IsGone, wait_for_pid_exit_iff, stop_iff, destroy_missing, destroy_attached_iff,
}
use becky.State.{is_running_state}
use becky.SystemCommand.Control.Observed.{is_running-current_system_state}
use becky.SystemCommand.Control.{
  is_running, current_system_state, fx_start, fx_status, spawn_command,
}
use becky.SystemCommand.Control.Start.{Started, fx_start-Started}
use becky.SystemCommand.Control.Reattach.{
  wanted, fx_start_attaches, fx_start_of_wrapped, fx_status_of_wrapped,
}
use becky.SystemCommand.Sample.{
  sleeper, nice_sleeper, job, job_path, process_at, empty_host, tracked, tracked_nice, path_of_job,
  file_of_job, process_of_job,
}

spawns :
    (fx_start memory_os sample job (sleeper, empty_host)).0
    ≡ ok (tokio (record { handle = true; tx = true; pid = 100; child = 100 }))
unfolding fx_start memory_os pid_file_path running_pid_from_pid_file write_pid_file list_eq
spawns = refl

fx_start-Started_example :
    Started (wanted sleeper) (fx_start memory_os sample job (sleeper, empty_host))
fx_start-Started_example = fx_start-Started sample memory_os job sleeper empty_host

fx_start_attaches_example : fx_start memory_os sample job (sleeper, tracked) ≡ (
  ok (pid_only 42),
  (
    record (wanted sleeper) { state = running 42 },
    (memory_os.new_all (read_pid_file memory_os job_path tracked).1).1,
  ),
)
fx_start_attaches_example =
    fx_start_attaches sample memory_os job sleeper job_path 42 tracked path_of_job file_of_job
      process_of_job

nice_path : pid_file_path sample nice_sleeper job ≡ some job_path
unfolding pid_file_path to_string
nice_path = refl

seen_bare :
    process (memory_os.new_all (read_pid_file memory_os job_path tracked).1).0 42
    ≡ some (process_at 42 (chars "sleep" ∷ chars "60" ∷ []))
unfolding read_pid_file memory_os nat_eq
seen_bare = refl

bare_line :
    command_equal nice_sleeper.command nice_sleeper.args
      (map utf8 (chars "sleep" ∷ chars "60" ∷ []))
    ≡ true
unfolding command_equal
bare_line = refl

removed_once :
    (remove_pid_file memory_os job_path
      (memory_os.new_all (read_pid_file memory_os job_path tracked).1).1).0
    ≡ ok tt
unfolding read_pid_file remove_pid_file memory_os
removed_once = refl

nice-IsWrapped : IsWrapped nice_sleeper
nice-IsWrapped = inl (λ h. cc)

fx_start_of_wrapped_example :
    fx_start memory_os sample job (nice_sleeper, tracked)
    ≡ spawn_command memory_os
        (wanted nice_sleeper)
        (some job_path)
        (launch_command_line nice_sleeper).0
        (launch_command_line nice_sleeper).1
        (
          wanted nice_sleeper,
          (remove_pid_file memory_os job_path
              (memory_os.new_all (read_pid_file memory_os job_path tracked).1).1).1,
        )
fx_start_of_wrapped_example =
    fx_start_of_wrapped sample memory_os job nice_sleeper job_path 42
      (process_at 42 (chars "sleep" ∷ chars "60" ∷ [])) tracked nice-IsWrapped nice_path refl
      file_of_job seen_bare bare_line removed_once

launched_line :
    (pid_matches_command memory_os 42
      (launch_command_line nice_sleeper).0
      (launch_command_line nice_sleeper).1
      tracked_nice).0
    ≡ ok true
unfolding pid_matches_command memory_os launch_command_line command_equal
launched_line = refl

fx_status_of_wrapped_run :
    (fx_status memory_os nice_sleeper (pid_only 42) tracked_nice).0 ≡ ok unknown
fx_status_of_wrapped_run =
    fx_status_of_wrapped memory_os nice_sleeper 42 tracked_nice nice-IsWrapped launched_line

wait_for_pid_exit_iff_example :
    (((wait_for_pid_exit memory_os 42 tracked).0 ≡ ok tt) ↔ IsGone memory_os 42 100 tracked)
    × (((wait_for_pid_exit memory_os 42 tracked).0 ≡ ok tt)
        ⊎ ((wait_for_pid_exit memory_os 42 tracked).0 ≡ err (process_did_not_exit 42)))
wait_for_pid_exit_iff_example = wait_for_pid_exit_iff memory_os 42 tracked

stop_iff_run :
    ((stop memory_os (pid_only 7) tracked).0 ≡ err process_not_running)
    ↔ (process (memory_os.new_all tracked).0 7 ≡ none)
stop_iff_run = stop_iff memory_os (pid_only 7) tracked

seven_missing : process (memory_os.new_all tracked).0 7 ≡ none
unfolding memory_os nat_eq
seven_missing = refl

destroy_missing_run :
    destroy memory_os (pid_only 7, tracked)
    ≡ (err process_not_running, (pid_only 7, (memory_os.new_all tracked).1))
destroy_missing_run = destroy_missing memory_os (pid_only 7) tracked seven_missing

destroy_attached_iff_run : ((destroy memory_os (pid_only 42, tracked)).0 ≡ ok tt) ↔ (
    ((signal_process memory_os 42 kill tracked).0 ≡ ok tt)
    × IsGone memory_os 42 100 (signal_process memory_os 42 kill tracked).1)
destroy_attached_iff_run = destroy_attached_iff memory_os 42 tracked

is_running-current_system_state_run : is_running memory_os sleeper tracked ≡ (
  is_running_state (current_system_state memory_os sleeper tracked).0,
  (current_system_state memory_os sleeper tracked).1,
)
is_running-current_system_state_run = is_running-current_system_state memory_os sleeper tracked
