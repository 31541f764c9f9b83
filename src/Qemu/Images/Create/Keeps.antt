-- ===== src/Qemu/Images/Create/Keeps.antt =====
-- What the creation of disks does to an image that exists.
use becky.Base.{
  ℕ, ◌≡◌, sym, subst, List, [], ◌∷◌, Option, none, some, Bool, true, false, All, ◌>>=◌, ok, Keeps,
  Keeps-bind, Keeps-pure, Keeps-fail, Action, catch, lists_eq,
}
use becky.Text.{Text, chars}
use becky.Id.{UuidCrate, FxId}
use becky.Os.{FilePath}
use becky.Storage.{SystemConfiguration}
use becky.Qemu.Errors.{QemuStorageCreateError, file_not_found, unsupported_storage}
use becky.Qemu.Images.{
  QcowOptions, DiskFile, StorageConfigurationIso, CloudDisk, os_image_format_arg,
  qemu_disk_format_arg, qemu_img_format_qcow2, vm_data_dir, qemu_disk_path, iso_dest_path,
  cloud_image_overlay_path,
}
use becky.Qemu.Images.Tool.{
  ImageHost, DiskAction, is_qcow_image_corrupt, validate_host_block_device, qemu_img_create,
  collect,
}
use becky.Qemu.Images.Create.{
  backed_by, created_if_missing, exists, make_dir, unless_missing, create_disk, copy_iso,
  create_overlay, overlay_of_format, create_cloud,
}

-- A fact `P` about the file `path`, which no call but a write to that file changes, and by which the
-- file exists.
pub record IsAbout {W : Type 0} (host : ImageHost W) (path : FilePath) (P : W → Type 0)
    : Type 0 where
  pub seen : (w : W) → P w → (host.try_exists path w).0 ≡ ok true
  pub on_exists : (other : FilePath) → Keeps P (host.try_exists other)
  pub on_dir : (other : FilePath) → Keeps P (host.create_dir_all other)
  pub on_block : (other : FilePath) → Keeps P (host.is_block_device other)
  pub on_info : (other : FilePath) → Keeps P (is_qcow_image_corrupt host other)
  pub on_create :
      (fmt : Text) (other : FilePath) (size : Option ℕ) (opts : QcowOptions)
      → ¬ (other ≡ path)
      → Keeps P (qemu_img_create host fmt other size opts)
  pub on_copy : (source other : FilePath) → ¬ (other ≡ path) → Keeps P (host.copy source other)

module _ {W : Type 0} (P : W → Type 0) where
  Keeps-catch : {E F A : Type 0} (f : E → F) (m : Action W E A) → Keeps P m → Keeps P (catch f m)
  Keeps-catch f m k = record { at = λ s h. k.at s h }

  pub collect_keeps :
      {A : Type 0} (act : A → DiskAction W (Unit {0})) (disks : List A) (w : W)
      → All (λ a. Keeps P (act a)) disks
      → P w
      → P (collect act disks w).1
  unfolding collect
  collect_keeps act [] w _ h = h
  collect_keeps act (a ∷ disks) w (k, ks) h = collect_keeps act disks _ ks (k.at w h)

module _ (U : UuidCrate) {W : Type 0} (host : ImageHost W) where
  module _ (path : FilePath) (P : W → Type 0) (about : IsAbout host path P) where
    exists-Keeps : (other : FilePath) → Keeps P (exists U host other)
    exists-Keeps other =
        Keeps-catch P QemuStorageCreateError.io (host.try_exists other) (about.on_exists other)

    make_dir-Keeps : (dir : FilePath) → Keeps P (make_dir U host dir)
    make_dir-Keeps dir =
        Keeps-catch P QemuStorageCreateError.io (host.create_dir_all dir) (about.on_dir dir)

    if_missing-Keeps :
        (other : FilePath) (create : DiskAction W (Unit {0})) (found : Bool)
        → Keeps P create
        → Keeps P (created_if_missing U host other create found)
    unfolding created_if_missing
    if_missing-Keeps other create true k = about.on_info other
    if_missing-Keeps other create false k = k

    -- The file is found, and then it is not made.
    made_if_missing-Keeps :
        (other : FilePath) (create : DiskAction W (Unit {0}))
        → (¬ (other ≡ path) → Keeps P create)
        → Keeps P (exists U host other >>= created_if_missing U host other create)
    unfolding created_if_missing
    made_if_missing-Keeps other create creates = elim (lists_eq.dec other path) [
      | no ne ↦
          Keeps-bind (exists-Keeps other)
            (λ found. if_missing-Keeps other create found (creates ne))
      | yes same ↦ record {
        at = λ w h.
            let w' = (host.try_exists other w).1 in
            let found : (host.try_exists other w).0 ≡ ok true =
              subst (λ p. (host.try_exists p w).0 ≡ ok true) (sym same) (about.seen w h) in
            rw found ((about.on_info other).at w' ((about.on_exists other).at w h));
      }
    ]

    unless_missing-Keeps :
        (source : FilePath) (found : Bool) → Keeps P (unless_missing U host source found)
    unfolding unless_missing
    unless_missing-Keeps source true = Keeps-pure tt
    unless_missing-Keeps source false = Keeps-fail (file_not_found source)

    pub block-Keeps : (device : FilePath) → Keeps P (validate_host_block_device host device)
    unfolding validate_host_block_device
    block-Keeps device = record { at = λ w h. (about.on_block device).at w h }

    module _ (sys_conf : SystemConfiguration) (fx_id : FxId U) where
      pub create_disk-Keeps : (file : DiskFile) → Keeps P (create_disk U host sys_conf fx_id file)
      unfolding create_disk
      create_disk-Keeps file = Keeps-bind (make_dir-Keeps (vm_data_dir U sys_conf fx_id)) (λ _.
          made_if_missing-Keeps (qemu_disk_path U sys_conf fx_id file.disk file.format)
            (qemu_img_create host (qemu_disk_format_arg file.format)
              (qemu_disk_path U sys_conf fx_id file.disk file.format) (some file.disk.size)
              file.opts)
            (about.on_create (qemu_disk_format_arg file.format)
              (qemu_disk_path U sys_conf fx_id file.disk file.format) (some file.disk.size)
              file.opts))

      pub copy_iso-Keeps :
          (props : StorageConfigurationIso)
          → ¬ (iso_dest_path U sys_conf fx_id props ≡ path)
          → Keeps P (copy_iso U host sys_conf fx_id props)
      unfolding copy_iso
      copy_iso-Keeps props ne =
          let dest = iso_dest_path U sys_conf fx_id props in
          Keeps-bind (make_dir-Keeps (vm_data_dir U sys_conf fx_id)) (λ _.
            Keeps-bind
              (Keeps-catch P QemuStorageCreateError.io (host.copy props.path dest)
                (about.on_copy props.path dest ne))
              (λ _. Keeps-pure tt))

      create_overlay-Keeps :
          (cloud : CloudDisk) (format : Text)
          → Keeps P (create_overlay U host sys_conf fx_id cloud format)
      unfolding create_overlay
      create_overlay-Keeps cloud format = Keeps-bind (exists-Keeps cloud.image.path) (λ source.
          Keeps-bind (unless_missing-Keeps cloud.image.path source) (λ _.
            Keeps-bind (make_dir-Keeps (vm_data_dir U sys_conf fx_id)) (λ _.
              made_if_missing-Keeps (cloud_image_overlay_path U sys_conf fx_id cloud.image)
                (qemu_img_create host qemu_img_format_qcow2
                  (cloud_image_overlay_path U sys_conf fx_id cloud.image) none
                  (backed_by cloud.image.path format cloud.opts))
                (about.on_create qemu_img_format_qcow2
                  (cloud_image_overlay_path U sys_conf fx_id cloud.image) none
                  (backed_by cloud.image.path format cloud.opts)))))

      overlay_of_format-Keeps :
          (cloud : CloudDisk) (format : Option Text)
          → Keeps P (overlay_of_format U host sys_conf fx_id cloud format)
      unfolding overlay_of_format
      overlay_of_format-Keeps cloud none =
          Keeps-fail
            (unsupported_storage (chars "ISO cloud images cannot be used as writable disks"))
      overlay_of_format-Keeps cloud (some format) = create_overlay-Keeps cloud format

      pub create_cloud-Keeps :
          (cloud : CloudDisk) → Keeps P (create_cloud U host sys_conf fx_id cloud)
      unfolding create_cloud
      create_cloud-Keeps cloud =
          overlay_of_format-Keeps cloud (os_image_format_arg cloud.image.os_type)
