-- ===== src/Qemu/Command/Supported.antt =====
-- The configurations that become a command line.
use becky.Base.{◌≡◌, false, [], ok, ok_of_bind}
use becky.Id.{UuidCrate, FxId}
use becky.Storage.{SystemConfiguration}
use becky.Qemu.Config.{
  QemuCrate, QemuMachineConfiguration, QemuMachineConfigurationByArch, amd64, common_of,
  no_bootstrap, BootMethod, bios,
}
use becky.Qemu.Config.Validate.{validate_common_options, validate_boot_method}
use becky.Qemu.Config.Validate.Supported.{common_supported, boot_supported}
use becky.Qemu.Command.{CommandHost, Qemu, qemu_of, of_result, qemu_from_machine_configuration}

-- The boot method of a machine for x86.
abbrev pub BootsBy : {B : QemuCrate} → BootMethod → QemuMachineConfigurationByArch B → Type 0
BootsBy method (amd64 machine) = machine.boot_method ≡ method
BootsBy method (QemuMachineConfigurationByArch.aarch64 machine) = Unit

module _ {W : Type 0} (host : CommandHost W) (U : UuidCrate) (B : QemuCrate) where
  module _ (sys_conf : SystemConfiguration) (fx_id : FxId U) where
    conf_supported :
        (value : QemuMachineConfiguration B) (conf : QemuMachineConfigurationByArch B) (w : W)
        (qemu : Qemu host U B sys_conf fx_id)
        → (qemu_of host U B sys_conf fx_id value conf w).0 ≡ ok qemu
        → ((common_of B conf).extra_options ≡ [])
          × ((common_of B conf).boot_kernel ≡ false)
          × ((common_of B conf).bootstrap_method ≡ no_bootstrap)
          × BootsBy bios conf
    unfolding qemu_of validate_common_options of_result
    conf_supported value (amd64 machine) w qemu h =
        let (_, first, rest) =
          ok_of_bind (of_result host (validate_common_options B machine.common)) _ w qemu h in
        let (_, second, _) =
          ok_of_bind (of_result host (validate_boot_method machine.boot_method)) _ w qemu rest in
        let (options, kernel, method) = common_supported B machine.common first in
        (options, kernel, method, boot_supported machine.boot_method second)
    conf_supported value (QemuMachineConfigurationByArch.aarch64 machine) w qemu h =
        let (_, first, rest) =
          ok_of_bind (of_result host (validate_common_options B machine.common)) _ w qemu h in
        let (options, kernel, method) = common_supported B machine.common first in
        (options, kernel, method, tt)

    -- A configuration that becomes a command line asks for none of what is not implemented: extra
    -- options, a kernel that boots, a bootstrap method, or UEFI.
    pub qemu_from_machine_configuration_supported :
        (value : QemuMachineConfiguration B) (w : W) (qemu : Qemu host U B sys_conf fx_id)
        → (qemu_from_machine_configuration host U B sys_conf fx_id value w).0 ≡ ok qemu
        → ((common_of B value.conf).extra_options ≡ [])
          × ((common_of B value.conf).boot_kernel ≡ false)
          × ((common_of B value.conf).bootstrap_method ≡ no_bootstrap)
          × BootsBy bios value.conf
    unfolding qemu_from_machine_configuration
    qemu_from_machine_configuration_supported value w qemu h =
        conf_supported value value.conf w qemu h
