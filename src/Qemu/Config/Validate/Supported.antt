-- ===== src/Qemu/Config/Validate/Supported.antt =====
-- The options that are accepted.
use becky.Base.{◌≡◌, refl, Bool, true, false, List, [], ◌∷◌, ok, arith}
use becky.Text.{Text}
use becky.Qemu.Config.{
  QemuCrate, QemuCommonOptions, BootStrapMethod, no_bootstrap, cloud_init, BootMethod, bios, uefi,
}
use becky.Qemu.Config.Validate.{
  validate_common_options, validate_options, validate_boot_kernel, validate_bootstrap,
  validate_boot_method,
}

options_supported :
    (options : List Text) (boot_kernel : Bool) (method : BootStrapMethod)
    → validate_options options boot_kernel method ≡ ok tt
    → (options ≡ []) × (boot_kernel ≡ false) × (method ≡ no_bootstrap)
unfolding validate_options validate_boot_kernel validate_bootstrap
options_supported (o ∷ options) boot_kernel method h = absurd (ground arith)
options_supported [] true method h = absurd (ground arith)
options_supported [] false no_bootstrap h = (refl, refl, refl)
options_supported [] false cloud_init h = absurd (ground arith)

pub boot_supported : (method : BootMethod) → validate_boot_method method ≡ ok tt → method ≡ bios
unfolding validate_boot_method
boot_supported bios h = refl
boot_supported uefi h = absurd (ground arith)

pub common_supported :
    (B : QemuCrate) (common : QemuCommonOptions B)
    → validate_common_options B common ≡ ok tt
    → (common.extra_options ≡ [])
      × (common.boot_kernel ≡ false)
      × (common.bootstrap_method ≡ no_bootstrap)
unfolding validate_common_options
common_supported B common h = options_supported _ _ _ h
