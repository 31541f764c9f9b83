-- ===== src/Qemu/Config.antt =====
-- becky-fx-qemu/src/lib.rs and src/instance.rs: what a machine is configured with, and the form of
-- it that the metadata keeps. `qemu_command_builder` is the parameter `QemuCrate`.
pub mod Desired
pub mod Validate
pub mod Sample
use becky.Base.{
  ℕ, ◌≡◌, Bool, true, false, Option, none, some, List, [], ◌∷◌, Result, ok, err, if◌then◌else◌,
}
use becky.Text.{Text, chars, join}
use becky.Os.{FilePath}
use becky.Storage.{SystemConfiguration}
use becky.Qemu.Errors.{CreateError, config}
use becky.Qemu.Images.{QemuStorageType}

-- `AccelType`; another one is its debug text.
pub data AccelType : Type 0 where
  tcg kvm hvf whpx : AccelType
  other : Text → AccelType

pub record QemuCrate : Type 1 where
  pub Memory : Type 0
  pub megabytes : ℕ → Memory
  pub memory_to_args : Memory → List Text
  pub parse_memory : Text → Option Memory
  pub accel_to_arg : AccelType → Text
  pub parse_accel : Text → Option AccelType
  pub CpuTypeX86 : Type 0
  pub max_x86 : CpuTypeX86
  pub CpuTypeAarch64 : Type 0
  pub max_aarch64 : CpuTypeAarch64

-- What the crate documents: what it prints, it parses back.
pub record ParsesBack (B : QemuCrate) : Type 0 where
  pub memory : (m : B.Memory) → B.parse_memory (join (chars ",") (B.memory_to_args m)) ≡ some m
  pub accel : (a : AccelType) → B.parse_accel (B.accel_to_arg a) ≡ some a

pub data QemuArchivePolicy : Type 0 where
  state_only disabled : QemuArchivePolicy

-- `None` is `no_bootstrap`.
pub data BootStrapMethod : Type 0 where
  no_bootstrap cloud_init : BootStrapMethod

pub data BootMethod : Type 0 where
  bios uefi : BootMethod

pub data NetworkingConfiguration : Type 0 where
  user : NetworkingConfiguration

pub data QemuDesiredArchitecture : Type 0 where
  x86_64 aarch64 : QemuDesiredArchitecture

pub record QemuDesiredCommonOptions : Type 0 where
  pub memory : Text
  pub enable_guest_agent : Bool
  pub kernel : Option FilePath
  pub initrd : Option FilePath
  pub extra_options : List Text
  pub snapshot : Option Bool
  pub boot_kernel : Bool
  pub accel_type : Text
  pub bootstrap_method : BootStrapMethod
  pub qmp_connect_timeout_secs : ℕ
  pub qga_connect_timeout_secs : ℕ
  pub uds_retry_interval_millis : ℕ
  pub qga_command_timeout_secs : ℕ
  pub status_poll_interval_secs : ℕ
  pub archive_policy : QemuArchivePolicy

pub record QemuDesiredMetadataRecord : Type 0 where
  pub name : Text
  pub arch : QemuDesiredArchitecture
  pub common : QemuDesiredCommonOptions
  pub cpus : ℕ
  pub boot_method : Option BootMethod
  pub storage : List QemuStorageType
  pub networking : Option NetworkingConfiguration

pub record QemuMetadataRecord : Type 0 where
  pub name : Text
  pub command_line : Text
  pub desired : Option QemuDesiredMetadataRecord
  pub runtime_pid : Option ℕ
  pub guest_agent_enabled : Bool
  pub pidfile : FilePath
  pub qmp_socket : FilePath
  pub qga_socket : Option FilePath
  pub log_dir : FilePath
  pub data_dir : FilePath

module _ (B : QemuCrate) where
  pub record QemuCommonOptions : Type 0 where
    pub memory : B.Memory
    pub enable_guest_agent : Bool
    pub kernel : Option FilePath
    pub initrd : Option FilePath
    pub extra_options : List Text
    pub snapshot : Option Bool
    pub boot_kernel : Bool
    pub accel_type : AccelType
    pub bootstrap_method : BootStrapMethod
    pub qmp_connect_timeout_secs : ℕ
    pub qga_connect_timeout_secs : ℕ
    pub uds_retry_interval_millis : ℕ
    pub qga_command_timeout_secs : ℕ
    pub status_poll_interval_secs : ℕ
    pub archive_policy : QemuArchivePolicy

  pub record QemuMachineConfigurationAmd64 : Type 0 where
    pub common : QemuCommonOptions
    pub cpu : B.CpuTypeX86
    pub cpus : ℕ
    pub boot_method : BootMethod

  pub record QemuMachineConfigurationAarch64 : Type 0 where
    pub common : QemuCommonOptions
    pub cpu : B.CpuTypeAarch64
    pub cpus : ℕ

  pub data QemuMachineConfigurationByArch : Type 0 where
    amd64 : QemuMachineConfigurationAmd64 → QemuMachineConfigurationByArch
    aarch64 : QemuMachineConfigurationAarch64 → QemuMachineConfigurationByArch

  pub record QemuMachineConfiguration : Type 0 where
    pub name : Text
    pub system_configuration : SystemConfiguration
    pub conf : QemuMachineConfigurationByArch
    pub storage : List QemuStorageType
    pub networking : Option NetworkingConfiguration

  pub record QemuMachineRequest : Type 0 where
    pub name : Text
    pub conf : QemuMachineConfigurationByArch
    pub storage : List QemuStorageType
    pub networking : Option NetworkingConfiguration

  -- `QemuMachineRequest::to_machine_configuration`, which `qemu_machine_configuration` calls.
  abbrev pub to_machine_configuration :
      QemuMachineRequest → SystemConfiguration → QemuMachineConfiguration
  to_machine_configuration request sys_conf = record {
    name = request.name;
    system_configuration = sys_conf;
    conf = request.conf;
    storage = request.storage;
    networking = request.networking;
  }

  abbrev pub default_common_options : QemuCommonOptions
  default_common_options = record {
    memory = B.megabytes 512;
    enable_guest_agent = false;
    kernel = none;
    initrd = none;
    extra_options = [];
    snapshot = none;
    boot_kernel = false;
    accel_type = tcg;
    bootstrap_method = no_bootstrap;
    qmp_connect_timeout_secs = 3;
    qga_connect_timeout_secs = 3;
    uds_retry_interval_millis = 100;
    qga_command_timeout_secs = 3;
    status_poll_interval_secs = 10;
    archive_policy = state_only;
  }

  -- The options of either architecture, which `has_ga` and the other accessors read.
  abbrev pub common_of : QemuMachineConfigurationByArch → QemuCommonOptions
  common_of (amd64 machine) = machine.common
  common_of (QemuMachineConfigurationByArch.aarch64 machine) = machine.common

  abbrev pub desired_common_options : QemuCommonOptions → QemuDesiredCommonOptions
  desired_common_options common = record {
    memory = join (chars ",") (B.memory_to_args common.memory);
    enable_guest_agent = common.enable_guest_agent;
    kernel = common.kernel;
    initrd = common.initrd;
    extra_options = common.extra_options;
    snapshot = common.snapshot;
    boot_kernel = common.boot_kernel;
    accel_type = B.accel_to_arg common.accel_type;
    bootstrap_method = common.bootstrap_method;
    qmp_connect_timeout_secs = common.qmp_connect_timeout_secs;
    qga_connect_timeout_secs = common.qga_connect_timeout_secs;
    uds_retry_interval_millis = common.uds_retry_interval_millis;
    qga_command_timeout_secs = common.qga_command_timeout_secs;
    status_poll_interval_secs = common.status_poll_interval_secs;
    archive_policy = common.archive_policy;
  }

  desired_of : QemuMachineConfiguration → QemuMachineConfigurationByArch → QemuDesiredMetadataRecord
  desired_of value (amd64 machine) = record {
    name = value.name;
    arch = x86_64;
    common = desired_common_options machine.common;
    cpus = machine.cpus;
    boot_method = some machine.boot_method;
    storage = value.storage;
    networking = value.networking;
  }
  desired_of value (QemuMachineConfigurationByArch.aarch64 machine) = record {
    name = value.name;
    arch = QemuDesiredArchitecture.aarch64;
    common = desired_common_options machine.common;
    cpus = machine.cpus;
    boot_method = none;
    storage = value.storage;
    networking = value.networking;
  }

  -- `QemuDesiredMetadataRecord::from`
  unfoldable pub to_desired : QemuMachineConfiguration → QemuDesiredMetadataRecord
  unfolding desired_of
  to_desired value = desired_of value value.conf
