-- ===== src/Qemu/Images.antt =====
-- becky-fx-qemu/src/lib.rs and src/storage_qcow.rs: the disks of a machine, and where their images
-- lie.
pub mod Options
pub mod Tool
pub mod Names
pub mod Check
pub mod Create
pub mod Resize
mod Examples
use becky.Base.{ℕ, Bool, Option, none, some, List, [], ◌∷◌, ◌++◌, map, ◌==◌, ◌||◌, if◌then◌else◌}
use becky.Base.{nat_eq}
use becky.Text.{Text, chars, is_ascii_alphanumeric}
use becky.Id.{UuidCrate, FxId, to_string}
use becky.Os.{FilePath, join_name}
use becky.Os.Paths.{push, file_name, file_stem}
use becky.Storage.{SystemConfiguration}

abbrev pub qemu_img_format_qcow2 : Text
qemu_img_format_qcow2 = chars "qcow2"

abbrev pub qemu_img_file_ext_qcow2 : Text
qemu_img_file_ext_qcow2 = qemu_img_format_qcow2

abbrev pub qemu_img_format_raw : Text
qemu_img_format_raw = chars "raw"

abbrev pub qemu_img_file_ext_raw : Text
qemu_img_file_ext_raw = chars "img"

-- Sizes are in bytes.
pub record StorageConfigurationDisk : Type 0 where
  pub id : Text
  pub path : FilePath
  pub size : ℕ
  pub bootable : Bool

pub record StorageConfigurationIso : Type 0 where
  pub id : Text
  pub path : FilePath
  pub bootable : Bool

pub data OsImageFileType : Type 0 where
  iso qcow2 raw : OsImageFileType

-- The operating system of an image is not read.
pub record StorageConfigurationCloudImage : Type 0 where
  pub id : Text
  pub path : FilePath
  pub os_type : OsImageFileType

pub data QcowPreallocation : Type 0 where
  off metadata falloc full : QcowPreallocation

pub record QcowOptions : Type 0 where
  pub backing_file : Option FilePath
  pub backing_format : Option Text
  pub preallocation : Option QcowPreallocation
  pub compat : Option Text
  pub cluster_size : Option ℕ
  pub lazy_refcounts : Option Bool
  pub extended_l2 : Option Bool

pub data QemuQcowFormat : Type 0 where
  raw qcow2 : QemuQcowFormat

-- A disk of a file with its format and its options.
pub record DiskFile : Type 0 where
  pub disk : StorageConfigurationDisk
  pub format : QemuQcowFormat
  pub opts : QcowOptions

pub record CloudDisk : Type 0 where
  pub image : StorageConfigurationCloudImage
  pub opts : QcowOptions

pub data QemuStorageType : Type 0 where
  qcow2 : List DiskFile → QemuStorageType
  host_block : List StorageConfigurationDisk → QemuStorageType
  iso : List StorageConfigurationIso → QemuStorageType
  cloud_image : List CloudDisk → QemuStorageType

unfoldable pub sanitize_storage_char : ℕ → ℕ
unfolding nat_eq
sanitize_storage_char c =
    if is_ascii_alphanumeric c || (c == b'.' || (c == b'_' || c == b'-')) then c else b'_'

unfoldable pub sanitize_storage_name : Text → Text
unfolding sanitize_storage_char
sanitize_storage_name name = map sanitize_storage_char name

-- A name from the identifier, or else from the name of the file, or else a fixed one.
name_or : Text → Option Text → Text
unfolding sanitize_storage_name
name_or other none = other
name_or other (some name) = sanitize_storage_name name

storage_name : Text → Option Text → Text → Text
unfolding name_or
storage_name [] file other = name_or other file
storage_name (c ∷ id) file other = sanitize_storage_name (c ∷ id)

unfoldable pub disk_stem : StorageConfigurationDisk → Text
unfolding storage_name file_name
disk_stem props = storage_name props.id (file_name props.path) (chars "disk")

unfoldable pub cloud_image_stem : StorageConfigurationCloudImage → Text
unfolding storage_name file_stem
cloud_image_stem image = storage_name image.id (file_stem image.path) (chars "cloud-image")

unfoldable pub iso_name : StorageConfigurationIso → Text
unfolding storage_name file_name
iso_name props = storage_name props.id (file_name props.path) (chars "media.iso")

abbrev pub qemu_disk_ext : QemuQcowFormat → Text
qemu_disk_ext raw = qemu_img_file_ext_raw
qemu_disk_ext qcow2 = qemu_img_file_ext_qcow2

abbrev pub qemu_disk_format_arg : QemuQcowFormat → Text
qemu_disk_format_arg raw = qemu_img_format_raw
qemu_disk_format_arg qcow2 = qemu_img_format_qcow2

abbrev pub os_image_format_arg : OsImageFileType → Option Text
os_image_format_arg iso = none
os_image_format_arg qcow2 = some qemu_img_format_qcow2
os_image_format_arg raw = some qemu_img_format_raw

module _ (U : UuidCrate) (sys_conf : SystemConfiguration) (fx_id : FxId U) where
  unfoldable pub vm_data_dir : FilePath
  unfolding to_string push
  vm_data_dir = push sys_conf.vm_data_root_path (to_string U fx_id)

  unfoldable pub qemu_disk_path : StorageConfigurationDisk → QemuQcowFormat → FilePath
  unfolding vm_data_dir disk_stem
  qemu_disk_path props format =
      join_name vm_data_dir (disk_stem props ++ b'.' ∷ qemu_disk_ext format)

  unfoldable pub iso_dest_path : StorageConfigurationIso → FilePath
  unfolding vm_data_dir iso_name push
  iso_dest_path props = push vm_data_dir (iso_name props)

  unfoldable pub cloud_image_overlay_path : StorageConfigurationCloudImage → FilePath
  unfolding vm_data_dir cloud_image_stem
  cloud_image_overlay_path image =
      join_name vm_data_dir (cloud_image_stem image ++ b'.' ∷ qemu_img_file_ext_qcow2)
