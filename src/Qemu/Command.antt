-- ===== src/Qemu/Command.antt =====
-- becky-fx-qemu/src/instance.rs: the command line of a machine, by the arguments that are set.
pub mod Drives
pub mod Supported
use becky.Base.{
  ℕ, ◌+◌, Bool, true, false, Option, none, some, List, [], ◌∷◌, ◌++◌, ◌==◌, list_eq, if◌then◌else◌,
}
use becky.Base.{Result, ok, err, map_err, Action, pure, fail, ◌>>=◌, ◌>>◌, catch}
use becky.Text.{Text, chars}
use becky.Text.Decimal.{decimal}
use becky.Id.{UuidCrate, FxId}
use becky.Os.{FilePath, join_name}
use becky.Os.Paths.{display, file_name}
use becky.Storage.{SystemConfiguration}
use becky.Qemu.Errors.{CreateError, config, which}
use becky.Qemu.Images.{
  DiskFile, StorageConfigurationDisk, StorageConfigurationIso, CloudDisk, QemuStorageType, qcow2,
  host_block, cloud_image, qemu_disk_format_arg, qemu_img_format_qcow2, qemu_disk_path,
  iso_dest_path, cloud_image_overlay_path,
}
use becky.Qemu.Config.{
  QemuCrate, QemuCommonOptions, AccelType, NetworkingConfiguration, user, QemuMachineConfiguration,
  QemuMachineConfigurationByArch, amd64,
}
use becky.Qemu.Config.Desired.{QemuSupportedArch, x86_64}
use becky.Qemu.Config.Validate.{
  TargetOs, validate_common_options, validate_boot_method, validate_accelerator,
}
use becky.Qemu.Command.Drives.{Drive, configured_storage_drives}
use becky.Qemu.Paths.{pid_path_s, ctl_socket_path_s, ga_socket_path_s}

pub record Device : Type 0 where
  pub driver : Text
  pub props : List (Text × Text)

-- A user network device, by its identifier.
pub record NetDev : Type 0 where
  pub id : Text

-- A character device on a Unix socket, which serves without waiting.
pub record CharDev : Type 0 where
  pub id : Text
  pub path : FilePath

-- `QemuInstanceBase`, by the arguments that are set.
pub record QemuInstanceBase (B : QemuCrate) (Cpu : Type 0) : Type 0 where
  pub qemu_binary : FilePath
  pub cpu : Cpu
  pub smp : ℕ
  pub m : B.Memory
  pub accel : AccelType
  pub name : Text
  pub pidfile : FilePath
  pub qmp : Text
  pub kernel : Option FilePath
  pub initrd : Option FilePath
  pub snapshot : Option Bool
  pub netdev : List NetDev
  pub device : List Device
  pub chardev : List CharDev
  pub drive : List Drive

-- The host's programs and its system; what is parsed is its text, or an error.
pub record CommandHost (W : Type 0) : Type 0 where
  pub target_os : TargetOs
  pub exists : FilePath → W → Bool × W
  pub which : Text → Action W Text FilePath
  pub parse_name : Text → Result Text Text
  pub parse_special_device : Text → Result Text Text

module _ {W : Type 0} (host : CommandHost W) where
  has_name : Text → FilePath → Bool
  unfolding file_name list_eq
  has_name binary path = elim (file_name path) [ none ↦ false | some name ↦ name == binary ]

  -- A configured path is the program, or a directory that has it; else the program is looked for.
  unfoldable pub qemu_binary_path : List FilePath → Text → Action W CreateError FilePath
  unfolding has_name
  qemu_binary_path [] binary w = catch CreateError.which (host.which binary) w
  qemu_binary_path (configured ∷ paths) binary w =
      if has_name binary configured
      then (ok configured, w)
      else (let (found, w') = host.exists (join_name configured binary) w in
          elim found [
            | true ↦ (ok (join_name configured binary), w')
            | false ↦ qemu_binary_path paths binary w'
          ])

  kvm_seen : TargetOs → AccelType → W → Bool × W
  kvm_seen TargetOs.linux AccelType.kvm w =
      host.exists (chars "/" ∷ chars "dev" ∷ chars "kvm" ∷ []) w
  kvm_seen _ _ w = (false, w)

  check_accelerator : AccelType → Action W CreateError (Unit {0})
  unfolding kvm_seen validate_accelerator
  check_accelerator accel w =
      let (dev_kvm, w') = kvm_seen host.target_os accel w in
      (validate_accelerator host.target_os dev_kvm accel, w')

  of_result : {A : Type 0} → Result CreateError A → Action W CreateError A
  of_result r w = (r, w)

  net_devices : Option NetworkingConfiguration → List NetDev × List Device
  net_devices none = ([], [])
  net_devices (some user) = (
    record { id = chars "net0" } ∷ [],
    record { driver = chars "virtio-net-pci"; props = (chars "netdev", chars "net0") ∷ [] } ∷ [],
  )

  module _ (U : UuidCrate) (B : QemuCrate) (sys_conf : SystemConfiguration) (fx_id : FxId U) where
    guest_agent : Bool → List CharDev × List Device
    guest_agent false = ([], [])
    guest_agent true = (
      record { id = chars "qga0"; path = ga_socket_path_s U sys_conf.vm_root_path fx_id } ∷ [],
      record { driver = chars "virtio-serial"; props = [] }
          ∷ record {
            driver = chars "virtserialport";
            props =
                (chars "chardev", chars "qga0")
                ∷ (chars "name", chars "org.qemu.guest_agent.0")
                ∷ [];
          }
          ∷ [],
    )

    qmp_text : Text
    unfolding display
    qmp_text =
        chars "unix:"
        ++ (display (ctl_socket_path_s U sys_conf.vm_root_path fx_id)
            ++ chars ",server=on,wait=off")

    -- `configure_common_qemu_args`, on the arguments that are set before it.
    unfoldable pub configure_common_qemu_args :
        {Cpu : Type 0}
        → QemuMachineConfiguration B
        → QemuCommonOptions B
        → ℕ
        → Cpu
        → FilePath
        → Result CreateError (QemuInstanceBase B Cpu)
    unfolding net_devices guest_agent qmp_text configured_storage_drives
    configure_common_qemu_args value common cpus cpu binary = elim (host.parse_name value.name) [
      | err x ↦ err (config x)
      | ok name ↦ elim (host.parse_special_device qmp_text) [
        | err x ↦ err (config x)
        | ok qmp ↦ ok (record {
          qemu_binary = binary;
          cpu = cpu;
          smp = cpus;
          m = common.memory;
          accel = common.accel_type;
          name = name;
          pidfile = pid_path_s U sys_conf.vm_root_path fx_id;
          qmp = qmp;
          kernel = common.kernel;
          initrd = common.initrd;
          snapshot = common.snapshot;
          netdev = (net_devices value.networking).0;
          device = (net_devices value.networking).1 ++ (guest_agent common.enable_guest_agent).1;
          chardev = (guest_agent common.enable_guest_agent).0;
          drive = configured_storage_drives U sys_conf fx_id value.storage;
        })
      ]
    ]

    abbrev pub Qemu : Type 0
    Qemu = QemuSupportedArch (QemuInstanceBase B B.CpuTypeX86) (QemuInstanceBase B B.CpuTypeAarch64)

    qemu_of :
        QemuMachineConfiguration B → QemuMachineConfigurationByArch B → Action W CreateError Qemu
    unfolding validate_common_options validate_boot_method check_accelerator qemu_binary_path
        configure_common_qemu_args of_result
    qemu_of value (amd64 machine) = do
      of_result (validate_common_options B machine.common)
      of_result (validate_boot_method machine.boot_method)
      check_accelerator machine.common.accel_type
      binary ← qemu_binary_path sys_conf.emulator_paths (chars "qemu-system-x86_64")
      qemu ←
          of_result
            (configure_common_qemu_args value machine.common machine.cpus machine.cpu binary)
      pure (QemuSupportedArch.x86_64 qemu)
    qemu_of value (QemuMachineConfigurationByArch.aarch64 machine) = do
      of_result (validate_common_options B machine.common)
      check_accelerator machine.common.accel_type
      binary ← qemu_binary_path sys_conf.emulator_paths (chars "qemu-system-aarch64")
      qemu ←
          of_result
            (configure_common_qemu_args value machine.common machine.cpus machine.cpu binary)
      pure (QemuSupportedArch.aarch64 qemu)

    unfoldable pub qemu_from_machine_configuration :
        QemuMachineConfiguration B → Action W CreateError Qemu
    unfolding qemu_of
    qemu_from_machine_configuration value = qemu_of value value.conf
