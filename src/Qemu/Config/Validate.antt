-- ===== src/Qemu/Config/Validate.antt =====
-- becky-fx-qemu/src/instance.rs: which configurations are refused.
pub mod Supported
use becky.Base.{
  ℕ, ◌≡◌, ◌↔◌, Bool, true, false, Option, none, some, List, [], ◌∷◌, Result, ok, err, if◌then◌else◌,
}
use Prim.Native.String.{String}
use becky.Base.{refl, arith, ◌++◌}
use becky.Text.{Text, chars}
use becky.Os.{FilePath}
use becky.Qemu.Errors.{CreateError, config}
use becky.Qemu.Config.{
  QemuCrate, QemuCommonOptions, AccelType, tcg, kvm, hvf, whpx, other, BootStrapMethod,
  no_bootstrap, cloud_init, BootMethod, bios, uefi,
}

-- `cfg!(target_os = …)`
pub data TargetOs : Type 0 where
  linux macos windows other_os : TargetOs

abbrev refuse : String → Result CreateError (Unit {0})
refuse message = err (config (chars message))

unfoldable pub validate_boot_method : BootMethod → Result CreateError (Unit {0})
validate_boot_method bios = ok tt
validate_boot_method uefi =
    refuse
      "QEMU boot_method=Uefi is not implemented; configure firmware support before selecting UEFI"

validate_bootstrap : BootStrapMethod → Result CreateError (Unit {0})
validate_bootstrap no_bootstrap = ok tt
validate_bootstrap cloud_init =
    refuse "QEMU bootstrap_method=CloudInit is not implemented as a command-line feature yet"

validate_boot_kernel : Bool → BootStrapMethod → Result CreateError (Unit {0})
unfolding validate_bootstrap
validate_boot_kernel true method =
    refuse
      "QEMU boot_kernel is not implemented; set kernel/initrd directly or leave boot_kernel=false"
validate_boot_kernel false method = validate_bootstrap method

validate_options : List Text → Bool → BootStrapMethod → Result CreateError (Unit {0})
unfolding validate_boot_kernel
validate_options (o ∷ options) boot_kernel method =
    refuse "QEMU extra_options is not implemented; use typed configuration fields instead"
validate_options [] boot_kernel method = validate_boot_kernel boot_kernel method

unfoldable pub validate_common_options :
    (B : QemuCrate) → QemuCommonOptions B → Result CreateError (Unit {0})
unfolding validate_options
validate_common_options B common =
    validate_options common.extra_options common.boot_kernel common.bootstrap_method

kvm_on : Bool → Result CreateError (Unit {0})
kvm_on true = ok tt
kvm_on false = refuse "KVM acceleration requested but /dev/kvm is not available"

-- By whether `/dev/kvm` exists, and the debug text of another accelerator.
unfoldable pub validate_accelerator : TargetOs → Bool → AccelType → Result CreateError (Unit {0})
unfolding kvm_on
validate_accelerator os dev_kvm tcg = ok tt
validate_accelerator os dev_kvm kvm = elim os [
  | linux ↦ kvm_on dev_kvm
  | _ ↦ refuse "KVM acceleration is only supported on Linux hosts"
]
validate_accelerator os dev_kvm hvf = elim os [
  | macos ↦ ok tt
  | _ ↦ refuse "HVF acceleration is only supported on macOS hosts"
]
validate_accelerator os dev_kvm whpx = elim os [
  | windows ↦ ok tt
  | _ ↦ refuse "WHPX acceleration is only supported on Windows hosts"
]
validate_accelerator os dev_kvm (other name) =
    err (config (chars "accelerator " ++ (name ++ chars " is not validated by becky-fx-qemu yet")))
