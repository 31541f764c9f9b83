-- ===== src/Qemu/Config/Desired/RoundTrip.antt =====
-- A configuration through the metadata and back.
use becky.Base.{◌≡◌, refl, ap, some}
use becky.Storage.{SystemConfiguration}
use becky.Qemu.Config.{
  QemuCrate, ParsesBack, QemuMachineConfiguration, QemuMachineConfigurationByArch, amd64,
  QemuCommonOptions, QemuMetadataRecord, to_desired, desired_of, desired_common_options,
}
use becky.Qemu.Config.Desired.{
  QemuSupportedArch, common_from_desired, machine_configuration_from_metadata_record, or_desired,
  conf_from_desired, desired_machine_configuration_from_metadata,
}

module _ (B : QemuCrate) where
  -- The same configuration, but for the model of the CPU.
  abbrev pub at_max_cpu : QemuMachineConfigurationByArch B → QemuMachineConfigurationByArch B
  at_max_cpu (amd64 machine) = amd64 (record machine { cpu = B.max_x86 })
  at_max_cpu (QemuMachineConfigurationByArch.aarch64 machine) =
      QemuMachineConfigurationByArch.aarch64 (record machine { cpu = B.max_aarch64 })

module _ (B : QemuCrate) (laws : ParsesBack B) where
  common_back :
      (common : QemuCommonOptions B)
      → common_from_desired B (desired_common_options B common) ≡ common
  common_back common = rw (laws.memory common.memory, laws.accel common.accel_type) refl

  conf_back :
      (value : QemuMachineConfiguration B) (conf : QemuMachineConfigurationByArch B)
      → conf_from_desired B (desired_of B value conf).arch (desired_of B value conf)
        ≡ at_max_cpu B conf
  unfolding desired_of
  conf_back value (amd64 machine) =
      ap (λ common. amd64 (record machine { common = common; cpu = B.max_x86 }))
        (common_back machine.common)
  conf_back value (QemuMachineConfigurationByArch.aarch64 machine) =
      ap
        (λ common.
          QemuMachineConfigurationByArch.aarch64
            (record machine { common = common; cpu = B.max_aarch64 }))
        (common_back machine.common)

  name_back :
      (value : QemuMachineConfiguration B) (conf : QemuMachineConfigurationByArch B)
      → ((desired_of B value conf).name ≡ value.name)
        × ((desired_of B value conf).storage ≡ value.storage)
        × ((desired_of B value conf).networking ≡ value.networking)
  unfolding desired_of
  name_back value (amd64 machine) = (refl, refl, refl)
  name_back value (QemuMachineConfigurationByArch.aarch64 machine) = (refl, refl, refl)

  -- If memory and accelerators parse back from their print, a configuration that was stored in a
  -- metadata record is rebuilt from it, under the system configuration at hand and with the model of
  -- its CPU replaced by `Max`, whatever the command line.
  pub desired_round_trip :
      {X A : Type 0} (sys_conf : SystemConfiguration) (value : QemuMachineConfiguration B)
      (r : QemuMetadataRecord) (qemu : QemuSupportedArch X A)
      → r.desired ≡ some (to_desired B value)
      → machine_configuration_from_metadata_record B sys_conf r qemu
        ≡ record value { system_configuration = sys_conf; conf = at_max_cpu B value.conf }
  unfolding machine_configuration_from_metadata_record or_desired to_desired
      desired_machine_configuration_from_metadata
  desired_round_trip sys_conf value r qemu h =
      let (name, storage, networking) = name_back value value.conf in
      rw (h, name, storage, networking, conf_back value value.conf) refl
