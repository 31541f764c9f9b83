-- ===== src/Qemu/Instance/Examples.antt =====
-- A machine on a host in memory: its command line, its pid file, and its start.
use becky.Base.{
  ◌≡◌, ◌↔◌, ◌⊎◌, refl, true, false, none, some, [], ◌∷◌, ok, err, nat_eq, list_eq, lists_eq,
}
use becky.Text.{Text, chars}
use becky.Text.Decimal.{decimal}
use becky.Id.{string, FxId}
use becky.Id.Sample.{sample}
use becky.Os.{FilePath}
use becky.Os.Memory.{Host, memory_os}
use becky.SystemCommand.Sample.{empty_host, process_at}
use becky.Qemu.Commands.{command}
use becky.Qemu.Config.{AccelType, no_bootstrap, bios, common_of}
use becky.Qemu.Config.Sample.{sample_crate, host_conf, machine}
use becky.Qemu.Config.Desired.{QemuSupportedArch}
use becky.Qemu.Config.Validate.{TargetOs}
use becky.Qemu.Command.{CommandHost, Qemu, qemu_from_machine_configuration}
use becky.Qemu.Command.Drives.{drive_id}
use becky.Qemu.Command.Supported.{BootsBy, qemu_from_machine_configuration_supported}
use becky.Qemu.Paths.{pid_path_s, ctl_socket_path_s}
use becky.Qemu.Instance.{
  QemuInstance, QemuHandle, CommandText, RunState, instance_of, live_pid_from_pidfile, has_ga,
  root_of, qmp_connect_timeout_secs, uds_retry_interval_millis,
}
use becky.Qemu.Instance.Comm.{InstanceHost}
use becky.Qemu.Instance.Comm.Connected.{is_some, WasSeen}
use becky.Qemu.Instance.Live.{IsLive, live_pid_from_pidfile_iff}
use becky.Qemu.Instance.Control.{try_attach_existing, fx_start}
use becky.Qemu.Instance.Control.Started.{fx_start_ok, try_attach_none_iff}

-- The programs are where they are looked for.
unfoldable programs : CommandHost (Unit {0})
programs = record {
  target_os = TargetOs.linux;
  exists = λ path w. (true, w);
  which = λ name w. (err name, w);
  parse_name = λ s. ok s;
  parse_special_device = λ s. ok s;
}

abbrev vm : FxId sample
vm = string (chars "vm")

abbrev below_vm : Text → Text → FilePath
below_vm dir name = chars "/" ∷ chars "vms" ∷ chars "vm" ∷ dir ∷ name ∷ []

abbrev line : Qemu programs sample sample_crate host_conf vm
unfolding sample_crate
line = QemuSupportedArch.x86_64 (record {
  qemu_binary = chars "/" ∷ chars "opt" ∷ chars "qemu-system-x86_64" ∷ [];
  cpu = false;
  smp = 4;
  m = 512 ∷ [];
  accel = AccelType.tcg;
  name = chars "vm";
  pidfile = below_vm (chars "run") (chars "qemu.pid");
  qmp = chars "unix:/vms/vm/run/ctl.sock,server=on,wait=off";
  kernel = none;
  initrd = none;
  snapshot = none;
  netdev = record { id = chars "net0" } ∷ [];
  device =
      record { driver = chars "virtio-net-pci"; props = (chars "netdev", chars "net0") ∷ [] }
      ∷ record { driver = chars "virtio-serial"; props = [] }
      ∷ record {
        driver = chars "virtserialport";
        props =
            (chars "chardev", chars "qga0") ∷ (chars "name", chars "org.qemu.guest_agent.0") ∷ [];
      }
      ∷ [];
  chardev = record { id = chars "qga0"; path = below_vm (chars "run") (chars "ga.sock") } ∷ [];
  drive = [];
})

becomes_line :
    (qemu_from_machine_configuration programs sample sample_crate host_conf vm machine tt).0
    ≡ ok line
unfolding qemu_from_machine_configuration programs sample_crate
becomes_line = refl

qemu_from_machine_configuration_supported_example :
    ((common_of sample_crate machine.conf).extra_options ≡ [])
    × ((common_of sample_crate machine.conf).boot_kernel ≡ false)
    × ((common_of sample_crate machine.conf).bootstrap_method ≡ no_bootstrap)
    × BootsBy bios machine.conf
qemu_from_machine_configuration_supported_example =
    qemu_from_machine_configuration_supported programs sample sample_crate host_conf vm machine tt
      line becomes_line

-- Two disks of one machine with the same drive.
same_drives : drive_id (chars "disk") [] 0 ≡ drive_id (chars "disk") (chars "0") 1
unfolding drive_id decimal
same_drives = refl

unfoldable text : CommandText (Unit {0})
text = record {
  to_command = λ q. chars "qemu" ∷ [];
  to_single_command = λ q. chars "qemu";
  from_str = λ s. ok tt;
}

abbrev instance' : QemuInstance sample sample_crate (Unit {0})
unfolding text
instance' = instance_of text host_conf machine vm tt none

-- Every call is answered.
unfoldable answers : InstanceHost (FxId sample) Host
answers = record {
  os = memory_os;
  exists = λ path w. (true, w);
  connect_ctl = λ path timeout pause w. (some 1, w);
  connect_ga = λ path timeout pause w. (some (2, 3), w);
  spawn_event_reader = λ ctl w. (4, w);
  query_version = λ ctl w. (ok tt, w);
  query_qmp_schema = λ ctl w. (ok (command (chars "query-status") ∷ []), w);
  query_status = λ ctl w. (ok (record { running = true; status = RunState.running }), w);
  query_block = λ ctl w. (ok tt, w);
  system_powerdown = λ ctl w. (ok tt, w);
  quit = λ ctl w. (ok tt, w);
  snapshot_save = λ ctl tag path w. (ok tt, w);
  guest_ping = λ qga secs w. (some (ok tt), w);
  guest_info = λ qga secs w. (some (ok []), w);
  state_update = λ fx_id state w. (ok tt, w);
  record_upsert = λ fx_id r w. (ok tt, w);
  storage_create = λ fx_id w. (ok tt, w);
}

abbrev pid_file : FilePath
pid_file = below_vm (chars "run") (chars "qemu.pid")

abbrev runs : Host
runs = record empty_host {
  files = (pid_file, chars "42") ∷ [];
  table = process_at 42 (chars "qemu" ∷ []) ∷ [];
}

live_pid_from_pidfile_iff_example :
    ((live_pid_from_pidfile memory_os pid_file runs).0 ≡ some 42)
    ↔ IsLive memory_os pid_file runs 42
live_pid_from_pidfile_iff_example = live_pid_from_pidfile_iff memory_os pid_file runs 42

abbrev handle : QemuHandle
handle = record {
  process = record { pid = 42; name = []; args = chars "qemu" ∷ [] };
  ctl = 1;
  schema = command (chars "query-status") ∷ [];
  event_reader = 4;
  ga = some 2;
  ga_info = some [];
  ga_task = some 3;
}

starts : (fx_start answers text vm (instance', runs)).0 ≡ ok handle
unfolding fx_start answers text memory_os sample_crate instance_of
starts = refl

fx_start_ok_example : WasSeen answers 42 × (is_some handle.ga ≡ has_ga instance')
fx_start_ok_example = fx_start_ok answers text vm instance' runs handle starts

abbrev socket : FilePath
socket = ctl_socket_path_s sample (root_of instance') instance'.fx_id

try_attach_none_iff_example :
    let (live, w₁) =
      live_pid_from_pidfile answers.os
        (pid_path_s sample (root_of instance') instance'.fx_id)
        runs in
    let (found, w₂) = answers.exists socket w₁ in
    let (ctl, w₃) =
      answers.connect_ctl socket
        (qmp_connect_timeout_secs instance')
        (uds_retry_interval_millis instance')
        w₂ in
    ((try_attach_existing answers text vm instance' runs).0 ≡ ok none)
    ↔ ((live ≡ none) ⊎ ((found ≡ false) ⊎ (ctl ≡ none)))
try_attach_none_iff_example = try_attach_none_iff answers text vm instance' runs
