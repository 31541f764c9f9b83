-- ===== src/Qemu/Images/Tool/Status.antt =====
-- What `qemu-img` is asked, and what is read of its answer.
use becky.Base.{ℕ, ◌≡◌, refl, Option, none, ◌↔◌, ok, Result-cases, inl, inr, arith}
use becky.Text.{Text, chars}
use becky.Os.{FilePath}
use becky.Utils.{CommandRanResult, run_system_command}
use becky.Qemu.Images.{QcowOptions}
use becky.Qemu.Images.Options.{create_args}
use becky.Qemu.Images.Tool.{ImageHost, qemu_img_create}

module _ {W : Type 0} (host : ImageHost W) where
  -- The creation of an image succeeds just if `qemu-img` ran to its end: its exit status is not
  -- read.
  pub qemu_img_create_iff :
      (fmt : Text) (filename : FilePath) (size : Option ℕ) (opts : QcowOptions) (w : W)
      → ((qemu_img_create host fmt filename size opts w).0 ≡ ok tt) ↔ (
          (ran : CommandRanResult) × ((run_system_command host.pipes
              (chars "qemu-img")
              (create_args fmt filename size opts)
              none
              w).0
            ≡ ok ran))
  unfolding qemu_img_create
  qemu_img_create_iff fmt filename size opts w =
      elim (Result-cases
        (run_system_command host.pipes (chars "qemu-img") (create_args fmt filename size opts) none
          w).0) [
            | inl (ran, e) ↦ rw (e, qemu_img_create) ((λ h. (ran, refl)), (λ h. refl))
            | inr (x, e) ↦
                rw (e, qemu_img_create) ((λ h. absurd (ground arith)), (λ h. absurd (ground arith)))
          ]
