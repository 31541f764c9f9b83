-- ===== src/SystemCommand/PidExamples.antt =====
-- Pid files, command lines and identities at concrete data.
use becky.Base.{◌≡◌, refl, ◌↔◌, arith, [], ◌∷◌, none, some, true, false, ok, map, map_ok}
use becky.Base.{length, All, ◌<◌, list_eq, nat_eq}
use becky.Text.{chars, IsText}
use becky.Text.Decimal.{parse_uint}
use becky.Id.{string, to_string}
use becky.Id.RoundTrip.{IsPlain}
use becky.Id.Sample.{sample, sample_parse, sample-IsUuidCrate}
use becky.Os.{utf8}
use becky.Os.Memory.{memory_os, memory_read-write}
use becky.SystemCommand.Match.{command_equal}
use becky.SystemCommand.Match.Exact.{IsCommand, command_equal_iff}
use becky.SystemCommand.Launch.{launch_command_line}
use becky.SystemCommand.CommandId.{encode_command_id}
use becky.SystemCommand.CommandId.Injective.{encode_command_id-injective}
use becky.SystemCommand.PidFile.{
  matches, pid_file_name, read_pid_file, write_pid_file, remove_pid_file, running_pid_from_pid_file,
}
use becky.SystemCommand.PidFile.Names.{IsSafe, pid_file_path-injective, pid_file_name-IsSafe}
use becky.SystemCommand.PidFile.Trust.{
  KeepsFiles, read_pid_file-write, running_pid_iff, running_pid_stale,
}
use becky.SystemCommand.Sample.{
  sleeper, nice_sleeper, job, job_path, empty_host, tracked, file_of_job,
}

launch_with_nice_and_cpus :
    launch_command_line (record nice_sleeper { pin_to_cpus = some (0 ∷ 12 ∷ []) })
    ≡ (chars "taskset", map chars ("-c" ∷ "0,12" ∷ "nice" ∷ "-n" ∷ "0" ∷ "sleep" ∷ "60" ∷ []))
unfolding launch_command_line
launch_with_nice_and_cpus = refl

encoded : encode_command_id (chars "ls") (chars "-l" ∷ []) ≡ chars "2:ls2:-l"
unfolding encode_command_id
encoded = refl

file_keeping : KeepsFiles memory_os
file_keeping = record { read-write = memory_read-write }

running_pid_iff_example :
    let (found, w₁) = read_pid_file memory_os job_path tracked in
    let (table, w₂) = memory_os.new_all w₁ in
    ((running_pid_from_pid_file memory_os job_path (chars "sleep") (chars "60" ∷ []) tracked).0
      ≡ ok (some 42))
    ↔ ((found ≡ ok (some 42)) × (matches table 42 (chars "sleep") (chars "60" ∷ []) ≡ true))
running_pid_iff_example =
    running_pid_iff memory_os job_path (chars "sleep") (chars "60" ∷ []) 42 tracked

other_command :
    matches (memory_os.new_all (read_pid_file memory_os job_path tracked).1).0 42 (chars "ls") []
    ≡ false
unfolding read_pid_file memory_os command_equal
other_command = refl

running_pid_stale_run :
    let (found, w₁) = read_pid_file memory_os job_path tracked in
    let (table, w₂) = memory_os.new_all w₁ in
    let (removed, w₃) = remove_pid_file memory_os job_path w₂ in
    running_pid_from_pid_file memory_os job_path (chars "ls") [] tracked ≡ (map_ok none removed, w₃)
running_pid_stale_run =
    running_pid_stale memory_os job_path (chars "ls") [] 42 tracked file_of_job other_command

written :
    write_pid_file memory_os job_path 42 empty_host
    ≡ (ok tt, (write_pid_file memory_os job_path 42 empty_host).1)
unfolding write_pid_file memory_os list_eq
written = refl

read_pid_file-write_example :
    (read_pid_file memory_os job_path (write_pid_file memory_os job_path 42 empty_host).1).0
    ≡ ok (some 42)
read_pid_file-write_example =
    read_pid_file-write memory_os file_keeping job_path 42 empty_host _ (omega arith) written

job-IsPlain : IsPlain sample job
unfolding sample_parse parse_uint
job-IsPlain = (refl, refl)

job-IsText : IsText (to_string sample job)
unfolding to_string
job-IsText = omega arith

pid_file_path-injective_example : string (chars "job") ≡ job
pid_file_path-injective_example =
    pid_file_path-injective sample sample-IsUuidCrate sleeper job job (chars "/" ∷ chars "run" ∷ [])
      refl job-IsPlain job-IsPlain job-IsText job-IsText refl

pid_file_name-IsSafe_run :
    All IsSafe (pid_file_name (chars "a/b")) × (2 < length (pid_file_name (chars "a/b")))
pid_file_name-IsSafe_run = pid_file_name-IsSafe (chars "a/b") (omega arith)

encode_command_id-injective_example :
    (chars "ls" ≡ chars "ls") × (chars "-l" ∷ [] ≡ chars "-l" ∷ [])
encode_command_id-injective_example =
    encode_command_id-injective (chars "ls") (chars "ls") (chars "-l" ∷ []) (chars "-l" ∷ []) refl

command_equal_iff_example :
    (command_equal (chars "sleep") (chars "60" ∷ []) (map utf8 (chars "sleep" ∷ chars "60" ∷ []))
      ≡ true)
    ↔ IsCommand (chars "sleep") (chars "60" ∷ []) (map utf8 (chars "sleep" ∷ chars "60" ∷ []))
command_equal_iff_example = command_equal_iff (chars "sleep") (chars "60" ∷ []) _
