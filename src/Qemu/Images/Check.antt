-- ===== src/Qemu/Images/Check.antt =====
-- becky-fx-qemu/src/lib.rs: `sys_storage_info` of a machine, which is also what `sys_storage_check`,
-- `sys_storage_open` and `sys_storage_close` do.
use becky.Base.{Bool, true, false, Option, none, some, List, [], ◌∷◌, ◌++◌}
use becky.Base.{Result, ok, err, Action, pure, fail, ◌>>=◌, catch}
use becky.Text.{Text, chars}
use becky.Id.{UuidCrate, FxId}
use becky.Os.{IoError, FilePath}
use becky.Storage.{SystemConfiguration}
use becky.Qemu.Errors.{QemuStorageCreateError, file_not_found, unsupported_storage}
use becky.Qemu.Images.{
  DiskFile, StorageConfigurationDisk, StorageConfigurationIso, CloudDisk, QemuStorageType, qcow2,
  host_block, cloud_image, os_image_format_arg, qemu_disk_path, cloud_image_overlay_path,
}
use becky.Qemu.Images.Tool.{
  ImageHost, DiskAction, is_qcow_image_corrupt, validate_host_block_device, collect, all_of,
}

-- The walk over the lists of disks of a machine, in which each kind has its operation.
pub record DiskWalk (W : Type 0) : Type 0 where
  pub on_qcow2 : DiskFile → DiskAction W (Unit {0})
  pub on_host_block : StorageConfigurationDisk → DiskAction W (Unit {0})
  pub on_iso : StorageConfigurationIso → DiskAction W (Unit {0})
  pub on_cloud_image : CloudDisk → DiskAction W (Unit {0})

module _ {W : Type 0} (walk : DiskWalk W) where
  unfoldable pub walk_storage : QemuStorageType → W → List QemuStorageCreateError × W
  unfolding collect
  walk_storage (qcow2 files) = collect walk.on_qcow2 files
  walk_storage (host_block devices) = collect walk.on_host_block devices
  walk_storage (QemuStorageType.iso isos) = collect walk.on_iso isos
  walk_storage (cloud_image images) = collect walk.on_cloud_image images

  unfoldable pub walk_all : List QemuStorageType → W → List QemuStorageCreateError × W
  unfolding walk_storage
  walk_all [] w = ([], w)
  walk_all (storage ∷ storages) w =
      let (errors, w₁) = walk_storage storage w in
      let (rest, w₂) = walk_all storages w₁ in (errors ++ rest, w₂)

module _ (U : UuidCrate) {W : Type 0} (host : ImageHost W) where
  module _ (sys_conf : SystemConfiguration) (fx_id : FxId U) where
    info_disk : DiskFile → DiskAction W (Unit {0})
    unfolding is_qcow_image_corrupt qemu_disk_path
    info_disk file =
        is_qcow_image_corrupt host (qemu_disk_path U sys_conf fx_id file.disk file.format)

    existing_media : FilePath → Result IoError Bool → DiskAction W (Unit {0})
    existing_media path (ok true) = pure tt
    existing_media path (ok false) = fail (file_not_found path)
    existing_media path (err x) = fail (file_not_found path)

    info_iso : StorageConfigurationIso → DiskAction W (Unit {0})
    unfolding existing_media
    info_iso props w = let (r, w') = host.try_exists props.path w in existing_media props.path r w'

    -- The overlay is inspected if it exists, and else the image that it would be made of.
    info_path : CloudDisk → Bool → FilePath
    unfolding cloud_image_overlay_path
    info_path cloud true = cloud_image_overlay_path U sys_conf fx_id cloud.image
    info_path cloud false = cloud.image.path

    info_format : FilePath → Option Text → DiskAction W (Unit {0})
    unfolding is_qcow_image_corrupt
    info_format path none =
        fail (unsupported_storage (chars "ISO cloud images cannot be used as writable disks"))
    info_format path (some format) = is_qcow_image_corrupt host path

    info_cloud : CloudDisk → DiskAction W (Unit {0})
    unfolding info_path info_format cloud_image_overlay_path
    info_cloud cloud = do
      found ←
          catch QemuStorageCreateError.io
            (host.try_exists (cloud_image_overlay_path U sys_conf fx_id cloud.image))
      info_format (info_path cloud found) (os_image_format_arg cloud.image.os_type)

    unfoldable pub info_walk : DiskWalk W
    unfolding info_disk validate_host_block_device info_iso info_cloud
    info_walk = record {
      on_qcow2 = info_disk;
      on_host_block = λ device. validate_host_block_device host device.path;
      on_iso = info_iso;
      on_cloud_image = info_cloud;
    }

    unfoldable pub sys_storage_info :
        List QemuStorageType → Action W (List QemuStorageCreateError) (Unit {0})
    unfolding info_walk walk_all
    sys_storage_info storage w =
        let (errors, w') = walk_all info_walk storage w in (all_of errors, w')
