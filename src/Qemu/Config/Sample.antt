-- ===== src/Qemu/Config/Sample.antt =====
-- A builder crate whose memories are their texts, and a configuration.
use becky.Base.{
  ◌≡◌, refl, Bool, true, false, Option, none, some, [], ◌∷◌, ◌==◌, nat_eq, if◌then◌else◌,
}
use becky.Text.{Text, chars, join}
use becky.Storage.{SystemConfiguration}
use becky.Qemu.Config.{
  QemuCrate, ParsesBack, AccelType, tcg, kvm, hvf, whpx, other, QemuMachineConfiguration, amd64,
  bios, user, default_common_options, QemuMetadataRecord, to_desired,
}
use becky.Qemu.Config.Desired.{QemuSupportedArch, machine_configuration_from_metadata_record}
use becky.Qemu.Config.Desired.RoundTrip.{desired_round_trip, at_max_cpu}

accel_text : AccelType → Text
accel_text tcg = b't' ∷ []
accel_text kvm = b'k' ∷ []
accel_text hvf = b'h' ∷ []
accel_text whpx = b'w' ∷ []
accel_text (other name) = b'x' ∷ name

read_accel : Text → Option AccelType
unfolding nat_eq
read_accel [] = none
read_accel (c ∷ name) =
    if c == b't'
    then some tcg
    else (if c == b'k'
        then some kvm
        else (if c == b'h' then some hvf else (if c == b'w' then some whpx else some (other name))))

-- The CPU is `Max` or another.
unfoldable pub sample_crate : QemuCrate
unfolding accel_text read_accel
sample_crate = record {
  Memory = Text;
  megabytes = λ n. n ∷ [];
  memory_to_args = λ m. m ∷ [];
  parse_memory = λ s. some s;
  accel_to_arg = accel_text;
  parse_accel = read_accel;
  CpuTypeX86 = Bool;
  max_x86 = true;
  CpuTypeAarch64 = Bool;
  max_aarch64 = true;
}

reads_accel : (a : AccelType) → read_accel (accel_text a) ≡ some a
unfolding read_accel accel_text nat_eq
reads_accel tcg = refl
reads_accel kvm = refl
reads_accel hvf = refl
reads_accel whpx = refl
reads_accel (other name) = refl

sample_crate-ParsesBack : ParsesBack sample_crate
unfolding sample_crate join
sample_crate-ParsesBack = record { memory = λ m. refl; accel = reads_accel }

abbrev pub host_conf : SystemConfiguration
host_conf = record {
  emulator_paths = (chars "/" ∷ chars "opt" ∷ chars "qemu-system-x86_64" ∷ []) ∷ [];
  binary_paths = [];
  run_path = [];
  vm_root_path = chars "/" ∷ chars "vms" ∷ [];
  vm_data_root_path = chars "/" ∷ chars "data" ∷ [];
  os_cache_root_path = [];
}

abbrev pub machine : QemuMachineConfiguration sample_crate
unfolding sample_crate
machine = record {
  name = chars "vm";
  system_configuration = host_conf;
  conf = amd64 (record {
    common = record (default_common_options sample_crate) { enable_guest_agent = true };
    cpu = false;
    cpus = 4;
    boot_method = bios;
  });
  storage = [];
  networking = some user;
}

abbrev stored : QemuMetadataRecord
stored = record {
  name = chars "vm";
  command_line = [];
  desired = some (to_desired sample_crate machine);
  runtime_pid = none;
  guest_agent_enabled = true;
  pidfile = [];
  qmp_socket = [];
  qga_socket = none;
  log_dir = [];
  data_dir = [];
}

abbrev no_line : QemuSupportedArch (Unit {0}) (Unit {0})
no_line = QemuSupportedArch.x86_64 tt

desired_round_trip_example :
    machine_configuration_from_metadata_record sample_crate host_conf stored no_line
    ≡ record machine {
      system_configuration = host_conf;
      conf = at_max_cpu sample_crate machine.conf;
    }
desired_round_trip_example =
    desired_round_trip sample_crate sample_crate-ParsesBack host_conf machine stored no_line refl
