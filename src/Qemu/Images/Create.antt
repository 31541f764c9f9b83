-- ===== src/Qemu/Images/Create.antt =====
-- becky-fx-qemu/src/lib.rs: `sys_storage_create` of a machine.
pub mod Keeps
pub mod Protects
use becky.Base.{Bool, true, false, Option, none, some, List, [], ◌∷◌}
use becky.Base.{Result, ok, err, Action, pure, fail, ◌>>=◌, ◌>>◌, catch}
use becky.Text.{Text, chars}
use becky.Id.{UuidCrate, FxId}
use becky.Os.{FilePath}
use becky.Storage.{SystemConfiguration}
use becky.Qemu.Errors.{QemuStorageCreateError, file_not_found, unsupported_storage}
use becky.Qemu.Images.{
  QcowOptions, DiskFile, StorageConfigurationIso, CloudDisk, QemuStorageType, os_image_format_arg,
  qemu_disk_format_arg, qemu_img_format_qcow2, vm_data_dir, qemu_disk_path, iso_dest_path,
  cloud_image_overlay_path,
}
use becky.Qemu.Images.Tool.{
  ImageHost, DiskAction, is_qcow_image_corrupt, validate_host_block_device, qemu_img_create, all_of,
}
use becky.Qemu.Images.Check.{DiskWalk, walk_all}

abbrev or_else : {A : Type 0} → A → Option A → Option A
or_else a none = some a
or_else a (some b) = some b

-- The image is the backing file of its overlay, unless the options name another.
abbrev pub backed_by : FilePath → Text → QcowOptions → QcowOptions
backed_by path format opts = record opts {
  backing_file = or_else path opts.backing_file;
  backing_format = or_else format opts.backing_format;
}

module _ (U : UuidCrate) {W : Type 0} (host : ImageHost W) where
  -- What exists is only inspected.
  unfoldable pub created_if_missing :
      FilePath → DiskAction W (Unit {0}) → Bool → DiskAction W (Unit {0})
  unfolding is_qcow_image_corrupt
  created_if_missing filename create true = is_qcow_image_corrupt host filename
  created_if_missing filename create false = create

  abbrev exists : FilePath → DiskAction W Bool
  exists path = catch QemuStorageCreateError.io (host.try_exists path)

  abbrev make_dir : FilePath → DiskAction W (Unit {0})
  make_dir path = catch QemuStorageCreateError.io (host.create_dir_all path)

  unless_missing : FilePath → Bool → DiskAction W (Unit {0})
  unless_missing path true = pure tt
  unless_missing path false = fail (file_not_found path)

  module _ (sys_conf : SystemConfiguration) (fx_id : FxId U) where
    unfoldable pub create_disk : DiskFile → DiskAction W (Unit {0})
    unfolding vm_data_dir qemu_disk_path created_if_missing qemu_img_create
    create_disk file = do
      make_dir (vm_data_dir U sys_conf fx_id)
      found ← exists (qemu_disk_path U sys_conf fx_id file.disk file.format)
      created_if_missing (qemu_disk_path U sys_conf fx_id file.disk file.format)
          (qemu_img_create host (qemu_disk_format_arg file.format)
            (qemu_disk_path U sys_conf fx_id file.disk file.format) (some file.disk.size) file.opts)
          found

    unfoldable pub copy_iso : StorageConfigurationIso → DiskAction W (Unit {0})
    unfolding vm_data_dir iso_dest_path
    copy_iso props = do
      make_dir (vm_data_dir U sys_conf fx_id)
      catch QemuStorageCreateError.io (host.copy props.path (iso_dest_path U sys_conf fx_id props))
      pure tt

    create_overlay : CloudDisk → Text → DiskAction W (Unit {0})
    unfolding vm_data_dir cloud_image_overlay_path created_if_missing qemu_img_create unless_missing
    create_overlay cloud backing_format = do
      source ← exists cloud.image.path
      unless_missing cloud.image.path source
      make_dir (vm_data_dir U sys_conf fx_id)
      found ← exists (cloud_image_overlay_path U sys_conf fx_id cloud.image)
      created_if_missing (cloud_image_overlay_path U sys_conf fx_id cloud.image)
          (qemu_img_create host qemu_img_format_qcow2
            (cloud_image_overlay_path U sys_conf fx_id cloud.image) none
            (backed_by cloud.image.path backing_format cloud.opts))
          found

    overlay_of_format : CloudDisk → Option Text → DiskAction W (Unit {0})
    unfolding create_overlay
    overlay_of_format cloud none =
        fail (unsupported_storage (chars "ISO cloud images cannot be used as writable disks"))
    overlay_of_format cloud (some format) = create_overlay cloud format

    unfoldable pub create_cloud : CloudDisk → DiskAction W (Unit {0})
    unfolding overlay_of_format
    create_cloud cloud = overlay_of_format cloud (os_image_format_arg cloud.image.os_type)

    unfoldable pub create_walk : DiskWalk W
    unfolding create_disk validate_host_block_device copy_iso create_cloud
    create_walk = record {
      on_qcow2 = create_disk;
      on_host_block = λ device. validate_host_block_device host device.path;
      on_iso = copy_iso;
      on_cloud_image = create_cloud;
    }

    unfoldable pub sys_storage_create :
        List QemuStorageType → Action W (List QemuStorageCreateError) (Unit {0})
    unfolding create_walk walk_all
    sys_storage_create storage w =
        let (errors, w') = walk_all create_walk storage w in (all_of errors, w')
