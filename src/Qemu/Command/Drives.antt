-- ===== src/Qemu/Command/Drives.antt =====
-- becky-fx-qemu/src/instance.rs: the drives of a machine's storage.
use becky.Base.{ℕ, ◌+◌, Option, none, some, List, [], ◌∷◌, ◌++◌}
use becky.Text.{Text, chars}
use becky.Text.Decimal.{decimal}
use becky.Id.{UuidCrate, FxId}
use becky.Os.{FilePath}
use becky.Os.Paths.{display}
use becky.Storage.{SystemConfiguration}
use becky.Qemu.Images.{
  QemuStorageType, qcow2, host_block, cloud_image, qemu_disk_format_arg, qemu_img_format_qcow2,
  qemu_disk_path, iso_dest_path, cloud_image_overlay_path,
}

pub data DriveInterface : Type 0 where
  virtio : DriveInterface

pub data DriveMedia : Type 0 where
  disk cdrom : DriveMedia

pub record Drive : Type 0 where
  pub file : Text
  pub interface : Option DriveInterface
  pub media : DriveMedia
  pub format : Option Text
  pub id : Text

abbrev suffix_of : Text → ℕ → Text
suffix_of [] index = decimal index
suffix_of (c ∷ id) index = c ∷ id

unfoldable pub drive_id : Text → Text → ℕ → Text
drive_id prefix id index = prefix ++ b'-' ∷ suffix_of id index

unfoldable pub drive_for_disk : FilePath → Text → Text → Drive
unfolding display
drive_for_disk file format id = record {
  file = display file;
  interface = some virtio;
  media = disk;
  format = some format;
  id = id;
}

unfoldable pub drive_for_iso : FilePath → Text → Drive
unfolding display
drive_for_iso file id = record {
  file = display file;
  interface = none;
  media = cdrom;
  format = none;
  id = id;
}

-- The walk of `enumerate`.
abbrev pub enumerate : {A D : Type 0} → (A → ℕ → D) → ℕ → List A → List D
enumerate drive index [] = []
enumerate drive index (a ∷ disks) = drive a index ∷ enumerate drive (index + 1) disks

module _ (U : UuidCrate) (sys_conf : SystemConfiguration) (fx_id : FxId U) where
  unfoldable pub storage_drives : QemuStorageType → List Drive
  unfolding drive_for_disk drive_for_iso drive_id qemu_disk_path iso_dest_path
      cloud_image_overlay_path
  storage_drives (qcow2 files) =
      enumerate
        (λ file index.
          drive_for_disk (qemu_disk_path U sys_conf fx_id file.disk file.format)
            (qemu_disk_format_arg file.format) (drive_id (chars "disk") file.disk.id index))
        0 files
  storage_drives (host_block devices) =
      enumerate
        (λ device index.
          drive_for_disk device.path (chars "raw") (drive_id (chars "host-block") device.id index))
        0 devices
  storage_drives (QemuStorageType.iso isos) =
      enumerate
        (λ props index.
          drive_for_iso (iso_dest_path U sys_conf fx_id props)
            (drive_id (chars "iso") props.id index))
        0 isos
  storage_drives (cloud_image images) =
      enumerate
        (λ cloud index.
          drive_for_disk (cloud_image_overlay_path U sys_conf fx_id cloud.image)
            qemu_img_format_qcow2 (drive_id (chars "cloud-image") cloud.image.id index))
        0 images

  unfoldable pub configured_storage_drives : List QemuStorageType → List Drive
  unfolding storage_drives
  configured_storage_drives [] = []
  configured_storage_drives (storage ∷ storages) =
      storage_drives storage ++ configured_storage_drives storages
