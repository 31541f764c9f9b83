-- ===== src/Qemu/Config/Desired.antt =====
-- becky-fx-qemu/src/instance.rs: the configuration of a machine that is found in the metadata.
pub mod RoundTrip
use becky.Base.{ℕ, Bool, Option, none, some, List, []}
use becky.Text.{Text}
use becky.Storage.{SystemConfiguration}
use becky.Qemu.Config.{
  QemuCrate, QemuCommonOptions, QemuDesiredMetadataRecord, QemuDesiredCommonOptions,
  QemuDesiredArchitecture, QemuMachineConfiguration, QemuMachineConfigurationByArch, amd64,
  QemuMetadataRecord, BootMethod, bios, default_common_options,
}

-- Which architecture a command line was parsed as.
pub data QemuSupportedArch (X A : Type 0) : Type 0 where
  x86_64 : X → QemuSupportedArch X A
  aarch64 : A → QemuSupportedArch X A

abbrev or_default : {A : Type 0} → A → Option A → A
or_default a none = a
or_default a (some b) = b

module _ (B : QemuCrate) where
  -- What does not parse is left at its default.
  abbrev common_from_desired : QemuDesiredCommonOptions → QemuCommonOptions B
  common_from_desired desired = record (default_common_options B) {
    memory = or_default (default_common_options B).memory (B.parse_memory desired.memory);
    enable_guest_agent = desired.enable_guest_agent;
    kernel = desired.kernel;
    initrd = desired.initrd;
    extra_options = desired.extra_options;
    snapshot = desired.snapshot;
    boot_kernel = desired.boot_kernel;
    accel_type =
        or_default (default_common_options B).accel_type (B.parse_accel desired.accel_type);
    bootstrap_method = desired.bootstrap_method;
    qmp_connect_timeout_secs = desired.qmp_connect_timeout_secs;
    qga_connect_timeout_secs = desired.qga_connect_timeout_secs;
    uds_retry_interval_millis = desired.uds_retry_interval_millis;
    qga_command_timeout_secs = desired.qga_command_timeout_secs;
    status_poll_interval_secs = desired.status_poll_interval_secs;
    archive_policy = desired.archive_policy;
  }

  abbrev conf_from_desired :
      QemuDesiredArchitecture → QemuDesiredMetadataRecord → QemuMachineConfigurationByArch B
  conf_from_desired QemuDesiredArchitecture.x86_64 desired = amd64 (record {
    common = common_from_desired desired.common;
    cpu = B.max_x86;
    cpus = desired.cpus;
    boot_method = or_default bios desired.boot_method;
  })
  conf_from_desired QemuDesiredArchitecture.aarch64 desired =
      QemuMachineConfigurationByArch.aarch64 (record {
        common = common_from_desired desired.common;
        cpu = B.max_aarch64;
        cpus = desired.cpus;
      })

  unfoldable pub desired_machine_configuration_from_metadata :
      SystemConfiguration → QemuDesiredMetadataRecord → QemuMachineConfiguration B
  desired_machine_configuration_from_metadata sys_conf desired = record {
    name = desired.name;
    system_configuration = sys_conf;
    conf = conf_from_desired desired.arch desired;
    storage = desired.storage;
    networking = desired.networking;
  }

  -- Without a desired configuration, the architecture is the command line's and the rest is fixed.
  conf_of_arch :
      {X A : Type 0}
      → QemuCommonOptions B
      → QemuSupportedArch X A
      → QemuMachineConfigurationByArch B
  conf_of_arch common (QemuSupportedArch.x86_64 qemu) =
      amd64 (record { common = common; cpu = B.max_x86; cpus = 1; boot_method = bios })
  conf_of_arch common (QemuSupportedArch.aarch64 qemu) =
      QemuMachineConfigurationByArch.aarch64
        (record { common = common; cpu = B.max_aarch64; cpus = 1 })

  or_desired :
      {X A : Type 0}
      → SystemConfiguration
      → QemuMetadataRecord
      → QemuSupportedArch X A
      → Option QemuDesiredMetadataRecord
      → QemuMachineConfiguration B
  unfolding desired_machine_configuration_from_metadata conf_of_arch
  or_desired sys_conf r qemu (some desired) =
      desired_machine_configuration_from_metadata sys_conf desired
  or_desired sys_conf r qemu none =
      let common : QemuCommonOptions B = record (default_common_options B) {
        enable_guest_agent = r.guest_agent_enabled;
      } in
      record {
        name = r.name;
        system_configuration = sys_conf;
        conf = conf_of_arch common qemu;
        storage = [];
        networking = none;
      }

  unfoldable pub machine_configuration_from_metadata_record :
      {X A : Type 0}
      → SystemConfiguration
      → QemuMetadataRecord
      → QemuSupportedArch X A
      → QemuMachineConfiguration B
  unfolding or_desired
  machine_configuration_from_metadata_record sys_conf r qemu = or_desired sys_conf r qemu r.desired
